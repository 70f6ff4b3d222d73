-- ===== src/Service/Once.antt =====
-- application/rebalance_service.py: what the claim of a cycle says of the orders that it sends.
use ibkrquant.Prelude.{◌≡◌, refl, sym, ◌∙◌, ◌⊎◌, inl, inr, Bool, true, false}
use mathlib.Core.Path.{subst}
use ibkrquant.Number.{Float}
use ibkrquant.Execution.Types.{Result, ok, raise, Intent, Broker}
use ibkrquant.Execution.Run.{Run, granted, acquired, delegate_submit, submit_claimed_order}
use ibkrquant.Execution.Rebalance.{Args, Kit}
use ibkrquant.Execution.Cycle.{execute_rebalance}
use ibkrquant.Execution.Effects.{Keeps, Frame, Rule}
use ibkrquant.Execution.Effects.Orders.{whole-Keeps}
use ibkrquant.Service.Claim.{Session}
use ibkrquant.Service.Claim.Backed.{Backed, Shut}
use ibkrquant.Service.Cycle.{claiming}

module _ {F S T : Type 0} where
  -- No order was sent in between.
  abbrev pub Silent : Run F (Session S T) → Run F (Session S T) → Type 0
  Silent r s = s.world.sent ≡ r.world.sent

  abbrev pub store_of : Run F (Session S T) → T
  store_of run = run.world.session.store

  abbrev pub holds_claim : Run F (Session S T) → Bool
  holds_claim run = run.world.session.execution_claim_acquired

module _ {F S T : Type 0} (P : T → Type 0) where
  -- While every claim that is held has `P`, an order is sent only where `P` holds afterwards.
  pub record Backs (r s : Run F (Session S T)) : Type 0 where
    pub lasting : P (store_of r) → P (store_of s)
    pub held : (holds_claim r ≡ true → P (store_of r)) → holds_claim s ≡ true → P (store_of s)
    pub sends : (holds_claim r ≡ true → P (store_of r)) → Silent r s ⊎ P (store_of s)

  -- Where `P` holds and no claim is held, nothing is sent.
  pub record Shuts (r s : Run F (Session S T)) : Type 0 where
    pub lasting : P (store_of r) → P (store_of s)
    pub sends : P (store_of r) → holds_claim r ≡ false → (holds_claim s ≡ false) × Silent r s

module _ {F S T : Type 0} (P : T → Type 0) where
  pub sends_chain :
      (r s t : Run F (Session S T))
      → (P (store_of s) → P (store_of t))
      → Silent r s ⊎ P (store_of s)
      → Silent s t ⊎ P (store_of t)
      → Silent r t ⊎ P (store_of t)
  sends_chain r s t keep (inl e) (inl d) = inl (d ∙ e)
  sends_chain r s t keep (inl e) (inr p) = inr p
  sends_chain r s t keep (inr p) _ = inr (keep p)

module _ {F S T : Type 0} {P : T → Type 0} where
  Backs-frame : Frame (Backs {F = F} {S = S} {T = T} P)
  Backs-frame = record {
    stay = λ run. record { lasting = λ p. p; held = λ h. h; sends = λ h. inl refl };
    chain = λ r s t p q. record {
      lasting = λ x. q.lasting (p.lasting x);
      held = λ h. q.held (p.held h);
      sends = λ h. sends_chain P r s t q.lasting (p.sends h) (q.sends (p.held h));
    };
    on_summary = λ run s. record { lasting = λ p. p; held = λ h. h; sends = λ h. inl refl };
  }

  Shuts-frame : Frame (Shuts {F = F} {S = S} {T = T} P)
  Shuts-frame = record {
    stay = λ run. record { lasting = λ p. p; sends = λ p a. (a, refl) };
    chain = λ r s t p q. record {
      lasting = λ x. q.lasting (p.lasting x);
      sends = λ x a. let (b, e) = p.sends x a in let (d, g) = q.sends (p.lasting x) b in (d, g ∙ e);
    };
    on_summary = λ run s. record { lasting = λ p. p; sends = λ p a. (a, refl) };
  }

  granted_Backs :
      (b : Broker F (Session S T))
      (keep : (s : Session S T) (i : Intent F)
        → ((b.submit i s).1.store ≡ s.store)
          × ((b.submit i s).1.execution_claim_acquired ≡ s.execution_claim_acquired))
      (i : Intent F) (run : Run F (Session S T)) (out : Result Bool × Session S T)
      → Backed P run.world.session out
      → Backs P run
          (granted b i out.0 (record run { world = record run.world { session = out.1 } })).1
  unfolding granted delegate_submit
  granted_Backs b keep i run (ok true, s) h = record {
    lasting = λ p. subst P (sym (keep s i).0) (h.lasting p);
    held = λ g a. subst P (sym (keep s i).0) (h.held g (sym (keep s i).1 ∙ a));
    sends = λ g. inr (subst P (sym (keep s i).0) (h.granted g refl));
  }
  granted_Backs b keep i run (ok false, s) h = record {
    lasting = h.lasting;
    held = h.held;
    sends = λ g. inl refl;
  }
  granted_Backs b keep i run (raise e, s) h = record {
    lasting = h.lasting;
    held = h.held;
    sends = λ g. inl refl;
  }

  granted_Shuts :
      (b : Broker F (Session S T))
      (keep : (s : Session S T) (i : Intent F)
        → ((b.submit i s).1.store ≡ s.store)
          × ((b.submit i s).1.execution_claim_acquired ≡ s.execution_claim_acquired))
      (i : Intent F) (run : Run F (Session S T)) (out : Result Bool × Session S T)
      → Shut P run.world.session out
      → Shuts P run
          (granted b i out.0 (record run { world = record run.world { session = out.1 } })).1
  unfolding granted delegate_submit
  granted_Shuts b keep i run (ok true, s) h = record {
    lasting = λ p. subst P (sym (keep s i).0) (h.lasting p);
    sends = λ p a. absurd ((h.not_held p a).1 refl);
  }
  granted_Shuts b keep i run (ok false, s) h = record {
    lasting = h.lasting;
    sends = λ p a. ((h.not_held p a).0, refl);
  }
  granted_Shuts b keep i run (raise e, s) h = record {
    lasting = h.lasting;
    sends = λ p a. ((h.not_held p a).0, refl);
  }

module _ {F S T : Type 0} {P : T → Type 0} (b : Broker F S)
    (acquire : Session S T → Result Bool × Session S T) where
  Backs-rule :
      (dry : Bool) (Allowed : Intent F → Type 0)
      → ((s : Session S T) → Backed P s (acquire s))
      → Rule (Backs P) (claiming b acquire) dry Allowed
  unfolding submit_claimed_order acquired
  Backs-rule dry Allowed h = record {
    frame = Backs-frame;
    on_settle = λ e run. record { lasting = λ p. p; held = λ g. g; sends = λ g. inl refl };
    on_submit = λ e i _ run.
        granted_Backs (claiming b acquire) (λ s i. (refl, refl)) i run (acquire run.world.session)
          (h run.world.session);
  }

  Shuts-rule :
      (dry : Bool) (Allowed : Intent F → Type 0)
      → ((s : Session S T) → Shut P s (acquire s))
      → Rule (Shuts P) (claiming b acquire) dry Allowed
  unfolding submit_claimed_order acquired
  Shuts-rule dry Allowed h = record {
    frame = Shuts-frame;
    on_settle = λ e run. record { lasting = λ p. p; sends = λ p a. (a, refl) };
    on_submit = λ e i _ run.
        granted_Shuts (claiming b acquire) (λ s i. (refl, refl)) i run (acquire run.world.session)
          (h run.world.session);
  }

  module _ ⦃f : Float F⦄ (a : Args F) (kit : Kit F) where
    pub execution-Backs :
        ((s : Session S T) → Backed P s (acquire s))
        → Keeps (Backs P) (execute_rebalance a kit (claiming b acquire))
    execution-Backs h =
        whole-Keeps a kit (claiming b acquire) {R = Backs P} {Allowed = λ _. Unit}
          (Backs-rule a.dry_run_only _ h) (λ i e. tt)
          (λ run l. record { lasting = λ p. p; held = λ g. g; sends = λ g. inl refl })

    pub execution-Shuts :
        ((s : Session S T) → Shut P s (acquire s))
        → Keeps (Shuts P) (execute_rebalance a kit (claiming b acquire))
    execution-Shuts h =
        whole-Keeps a kit (claiming b acquire) {R = Shuts P} {Allowed = λ _. Unit}
          (Shuts-rule a.dry_run_only _ h) (λ i e. tt)
          (λ run l. record { lasting = λ p. p; sends = λ p a. (a, refl) })
