-- ===== src/Service/First.antt =====
-- application/rebalance_service.py: an execution claims at most once, on the store that it starts with.
use ibkrquant.Prelude.{
  ◌≡◌, refl, sym, ◌∙◌, ◌⊎◌, inl, inr, Bool, true, false, Option, none, some, Text, Bool-cases,
  if◌then◌else◌,
}
use mathlib.Core.Path.{subst}
use ibkrquant.Number.{Float}
use ibkrquant.Execution.Types.{Result, ok, raise, Intent, Broker}
use ibkrquant.Execution.Run.{Run, granted, acquired, delegate_submit, submit_claimed_order}
use ibkrquant.Execution.Rebalance.{Args, Kit}
use ibkrquant.Execution.Cycle.{execute_rebalance}
use ibkrquant.Execution.Effects.{Keeps, Frame, Rule}
use ibkrquant.Execution.Effects.Orders.{whole-Keeps}
use ibkrquant.Service.Claim.{
  Store, Config, Session, keep_claim, claim_the_marker, pass_fence, claim_account, claim_store,
  first_attempt, acquire_execution_claim,
}
use ibkrquant.Service.Claim.Backed.{Granted}
use ibkrquant.Service.Cycle.{claiming}
use ibkrquant.Service.Once.{Silent}

module _ {S T : Type 0} (t₀ : T) (G : Type 0) where
  -- Before the attempt the store is the first one, and a claim that is held has `G`.
  abbrev pub IsFirst : Session S T → Type 0
  IsFirst s =
      (s.execution_claim_attempted ≡ false → s.store ≡ t₀) × (s.execution_claim_acquired ≡ true → G)

  -- the answer of a claim that was attempted
  record Answered (out : Result Bool × Session S T) : Type 0 where
    attempted : out.1.execution_claim_attempted ≡ true
    held : out.1.execution_claim_acquired ≡ true → G
    granted : out.0 ≡ ok true → G

  pub record Claims (s : Session S T) (out : Result Bool × Session S T) : Type 0 where
    pub kept : IsFirst s → IsFirst out.1
    pub granted : IsFirst s → out.0 ≡ ok true → G

  keep_claim-Answered :
      (answer : Option Bool) (s : Session S T)
      → s.execution_claim_attempted ≡ true
      → (s.execution_claim_acquired ≡ true → G)
      → (answer ≡ some true → G)
      → Answered (keep_claim answer s)
  keep_claim-Answered none s a h g = record { attempted = a; held = h; granted = λ e. cc }
  keep_claim-Answered (some true) s a h g = record {
    attempted = a;
    held = λ e. g refl;
    granted = λ e. g refl;
  }
  keep_claim-Answered (some false) s a h g = record {
    attempted = a;
    held = λ e. cc;
    granted = λ e. cc;
  }

  pass_fence-Answered :
      (st : Store T) (key : Text) (allowed : Option Bool) (s : Session S T)
      → s.execution_claim_attempted ≡ true
      → (s.execution_claim_acquired ≡ true → G)
      → (allowed ≡ some true → (st.claim_marker key s.store).0 ≡ some true → G)
      → Answered (pass_fence st key allowed s)
  unfolding claim_the_marker
  pass_fence-Answered st key none s a h g = record { attempted = a; held = h; granted = λ e. cc }
  pass_fence-Answered st key (some false) s a h g = record {
    attempted = a;
    held = h;
    granted = λ e. cc;
  }
  pass_fence-Answered st key (some true) s a h g = keep_claim-Answered _ _ a h (g refl)

  module _ (key owner : Text) (account : Result Text) where
    attempt-Answered :
        (o : Option (Store T)) (s : Session S T)
        → ((st : Store T) (a : Text) → o ≡ some st → account ≡ ok a → Granted st key owner a t₀ → G)
        → s.execution_claim_attempted ≡ true
        → (s.execution_claim_acquired ≡ true → G)
        → s.store ≡ t₀
        → Answered (first_attempt o key owner account s)
    unfolding claim_account
    attempt-Answered none s grant a h e = record { attempted = a; held = h; granted = λ g. h cc }
    attempt-Answered (some st) s grant a h e = account-Answered account refl
      where
        account-Answered :
            (r : Result Text) → account ≡ r → Answered (claim_account st key owner r s)
        account-Answered (raise x) same = record { attempted = a; held = h; granted = λ g. cc }
        account-Answered (ok n) same =
            pass_fence-Answered st key _ (record s { store = _ }) a h
              (λ allowed claimed. grant st n refl same (
                subst (Granted st key owner n) e
                  (record { owner_allowed = allowed; marker_granted = claimed })))

    pub acquire-Claims :
        (c : Config T)
        → ((st : Store T) (a : Text)
            → claim_store c key ≡ some st
            → account ≡ ok a
            → Granted st key owner a t₀
            → G)
        → (s : Session S T) → Claims s (acquire_execution_claim c key owner account s)
    unfolding acquire_execution_claim
    acquire-Claims c grant s = elim (Bool-cases s.execution_claim_attempted) [
      | inl tried ↦
          subst (Claims s) (sym (taken s.execution_claim_attempted _ _ tried))
            (record { kept = λ h. h; granted = λ h e. h.1 cc })
      | inr fresh ↦ subst (Claims s) (sym (left s.execution_claim_attempted _ _ fresh)) (record {
        kept = λ h. let r = answered fresh h in (λ e. cc, r.held);
        granted = λ h. (answered fresh h).granted;
      })
    ]
      where
        taken : (b : Bool) (x y : Result Bool × Session S T) → b ≡ true → (if b then x else y) ≡ x
        taken true x y e = refl
        taken false x y e = cc

        left : (b : Bool) (x y : Result Bool × Session S T) → b ≡ false → (if b then x else y) ≡ y
        left true x y e = cc
        left false x y e = refl

        answered :
            s.execution_claim_attempted ≡ false
            → IsFirst s
            → Answered (
                first_attempt
                  (claim_store c key)
                  key
                  owner
                  account
                  (record s { execution_claim_attempted = true }))
        answered fresh h =
            attempt-Answered (claim_store c key) (record s { execution_claim_attempted = true })
              grant refl h.1 (h.0 fresh)

module _ {F S T : Type 0} (t₀ : T) (G : Type 0) where
  -- An order is sent only where `G` holds.
  pub record First (r s : Run F (Session S T)) : Type 0 where
    pub kept : IsFirst t₀ G r.world.session → IsFirst t₀ G s.world.session
    pub sends : IsFirst t₀ G r.world.session → Silent r s ⊎ G

  chain_sends : (r s t : Run F (Session S T)) → Silent r s ⊎ G → Silent s t ⊎ G → Silent r t ⊎ G
  chain_sends r s t (inl e) (inl d) = inl (d ∙ e)
  chain_sends r s t (inl e) (inr g) = inr g
  chain_sends r s t (inr g) _ = inr g

  First-frame : Frame First
  First-frame = record {
    stay = λ run. record { kept = λ h. h; sends = λ h. inl refl };
    chain = λ r s t p q. record {
      kept = λ h. q.kept (p.kept h);
      sends = λ h. chain_sends r s t (p.sends h) (q.sends (p.kept h));
    };
    on_summary = λ run s. record { kept = λ h. h; sends = λ h. inl refl };
  }

module _ {F S T : Type 0} {t₀ : T} {G : Type 0} (b : Broker F S)
    (acquire : Session S T → Result Bool × Session S T) where
  granted_First :
      (i : Intent F) (run : Run F (Session S T)) (out : Result Bool × Session S T)
      → Claims t₀ G run.world.session out
      → First t₀ G run
          (granted
            (claiming b acquire)
            i
            out.0
            (record run { world = record run.world { session = out.1 } })).1
  unfolding granted delegate_submit
  granted_First i run (ok true, s) h = record { kept = h.kept; sends = λ g. inr (h.granted g refl) }
  granted_First i run (ok false, s) h = record { kept = h.kept; sends = λ g. inl refl }
  granted_First i run (raise e, s) h = record { kept = h.kept; sends = λ g. inl refl }

  First-rule :
      (dry : Bool) (Allowed : Intent F → Type 0)
      → ((s : Session S T) → Claims t₀ G s (acquire s))
      → Rule (First t₀ G) (claiming b acquire) dry Allowed
  unfolding submit_claimed_order acquired
  First-rule dry Allowed h = record {
    frame = First-frame t₀ G;
    on_settle = λ e run. record { kept = λ g. g; sends = λ g. inl refl };
    on_submit = λ e i _ run. granted_First i run (acquire run.world.session) (h run.world.session);
  }

  pub execution-First :
      ⦃f : Float F⦄ (a : Args F) (kit : Kit F)
      → ((s : Session S T) → Claims t₀ G s (acquire s))
      → Keeps (First t₀ G) (execute_rebalance a kit (claiming b acquire))
  execution-First a kit h =
      whole-Keeps a kit (claiming b acquire) {R = First t₀ G} {Allowed = λ _. Unit}
        (First-rule a.dry_run_only _ h) (λ i e. tt)
        (λ run l. record { kept = λ g. g; sends = λ g. inl refl })
