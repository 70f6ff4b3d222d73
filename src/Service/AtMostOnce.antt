-- ===== src/Service/AtMostOnce.antt =====
-- application/rebalance_service.py: the cycles of one marker key, and the orders of a cycle.
use ibkrquant.Prelude.{
  ◌≡◌, ◌≢◌, refl, sym, ◌∙◌, ◌⊎◌, inl, inr, Bool, true, false, List, [], ◌∷◌, Option, none, some,
  Text, is_blank_text, if◌then◌else◌, arith,
}
use mathlib.Core.Path.{subst}
use ibkrquant.Number.{Float}
use ibkrquant.Execution.Types.{ok}
use ibkrquant.Execution.Run.{Run, ◌>>=◌, on_session}
use ibkrquant.Execution.Effects.{Keeps, Frame, bind-Keeps, read-Keeps}
use ibkrquant.Service.Signal.{Signal, Snapshot, View}
use ibkrquant.Service.Claim.{Store, Config, Session, build_marker_key, owner_of, claim_store}
use ibkrquant.Service.Claim.Backed.{Backed, Shut, StoreKeeps, acquire-Backed, acquire-Shut}
use ibkrquant.Service.Cycle.{
  Runtime, mark, claim_of, record_execution_marker, fresh_claim, claimed_execution,
  run_strategy_core, args_of,
}
use ibkrquant.Service.Whole.{follow-Keeps, core-Keeps}
use ibkrquant.Service.Once.{Silent, store_of, sends_chain, execution-Backs, execution-Shuts}

-- An order is sent only where `P` holds afterwards, and none where it holds before.
pub record Once {F S T : Type 0} (P : T → Type 0) (r s : Run F (Session S T)) : Type 0 where
  pub lasting : P (store_of r) → P (store_of s)
  pub sends : Silent r s ⊎ P (store_of s)
  pub closed : P (store_of r) → Silent r s

-- An order is sent only where `P` holds afterwards.
pub record Sent {F S T : Type 0} (P : T → Type 0) (r s : Run F (Session S T)) : Type 0 where
  pub lasting : P (store_of r) → P (store_of s)
  pub sends : Silent r s ⊎ P (store_of s)

-- What a claim needs of the configuration.
pub claim_store_lem :
    {T : Type 0} (c : Config T) (key : Text) (st : Store T)
    → claim_store c key ≡ some st
    → (c.dry_run_only ≡ false)
      × (c.execution_dedup_enabled ≡ true)
      × (is_blank_text key ≡ false)
      × (c.execution_state_store ≡ some st)
unfolding claim_store
claim_store_lem c key st h = ground arith

module _ {F S T : Type 0} {P : T → Type 0} where
  Once-frame : Frame (Once {F = F} {S = S} {T = T} P)
  Once-frame = record {
    stay = λ run. record { lasting = λ p. p; sends = inl refl; closed = λ p. refl };
    chain = λ r s t p q. record {
      lasting = λ x. q.lasting (p.lasting x);
      sends = sends_chain P r s t q.lasting p.sends q.sends;
      closed = λ x. q.closed (p.lasting x) ∙ p.closed x;
    };
    on_summary = λ run s. record { lasting = λ p. p; sends = inl refl; closed = λ p. refl };
  }

  pub Sent-frame : Frame (Sent {F = F} {S = S} {T = T} P)
  Sent-frame = record {
    stay = λ run. record { lasting = λ p. p; sends = inl refl };
    chain = λ r s t p q. record {
      lasting = λ x. q.lasting (p.lasting x);
      sends = sends_chain P r s t q.lasting p.sends q.sends;
    };
    on_summary = λ run s. record { lasting = λ p. p; sends = inl refl };
  }

module _ {T : Type 0} {P : T → Type 0} where
  mark-keeps :
      (o : Option (Store T)) (key : Text) (t : T)
      → ((st : Store T) → o ≡ some st → StoreKeeps st P)
      → (b : Bool) → P t
      → P (if b then mark o key t else t)
  mark-keeps o key t keeps false p = p
  mark-keeps none key t keeps true p = p
  mark-keeps (some st) [] t keeps true p = p
  mark-keeps (some st) (x ∷ key) t keeps true p = (keeps st refl).on_record (x ∷ key) t p

module _ {F S T : Type 0} ⦃f : Float F⦄ (rt : Runtime F S) (c : Config T) (P : T → Type 0)
    (keeps : (st : Store T) → c.execution_state_store ≡ some st → StoreKeeps st P) where
  record_execution_marker-Once :
      (sig : Signal F) → Keeps (Once P) (record_execution_marker rt c sig)
  unfolding record_execution_marker on_session
  record_execution_marker-Once sig = bind-Keeps Once-frame (read-Keeps Once-frame _) λ recorded.
      record {
        holds = λ run. record {
          lasting =
              mark-keeps c.execution_state_store (build_marker_key c sig) (store_of run) keeps
                recorded;
          sends = inl refl;
          closed = λ p. refl;
        };
      }

  pub record_execution_marker-Sent :
      (sig : Signal F) → Keeps (Sent P) (record_execution_marker rt c sig)
  record_execution_marker-Sent sig = record {
    holds = λ run.
        let p = (record_execution_marker-Once sig).holds run in
        record { lasting = p.lasting; sends = p.sends };
  }

  module _ (sig : Signal F) (snapshot : Snapshot F) (v : View F) where
    pub claimed_execution-Sent :
        ((s : Session S T) → Backed P s (claim_of rt c sig snapshot s))
        → Keeps (Sent P) (claimed_execution rt c sig snapshot v)
    unfolding claimed_execution on_session ◌>>=◌
    claimed_execution-Sent backed = record {
      holds = λ run.
          let p =
            (execution-Backs rt.broker (claim_of rt c sig snapshot) (args_of rt c sig v)
                (rt.kit_of sig) backed).holds
              (record run {
                world = record run.world { session = fresh_claim run.world.session };
              }) in
          record { lasting = p.lasting; sends = p.sends (λ e. cc) };
    }

    claimed_execution-Once :
        ((s : Session S T) → Backed P s (claim_of rt c sig snapshot s))
        → ((s : Session S T) → Shut P s (claim_of rt c sig snapshot s))
        → Keeps (Once P) (claimed_execution rt c sig snapshot v)
    unfolding claimed_execution on_session ◌>>=◌
    claimed_execution-Once backed shut = record {
      holds = λ run.
          let p = (claimed_execution-Sent backed).holds run in
          let q =
            (execution-Shuts rt.broker (claim_of rt c sig snapshot) (args_of rt c sig v)
                (rt.kit_of sig) shut).holds
              (record run {
                world = record run.world { session = fresh_claim run.world.session };
              }) in
          record { lasting = p.lasting; sends = p.sends; closed = λ x. (q.sends x refl).1 };
    }

-- A store in which a marker is claimed once: `Claimed` is the state of a marker that was.
pub record IsClaimStore {T : Type 0} (st : Store T) (key : Text) (Claimed : T → Type 0)
    : Type 0 where
  pub keeps : StoreKeeps st Claimed
  pub granted : (t : T) → (st.claim_marker key t).0 ≡ some true → Claimed (st.claim_marker key t).1
  pub refused : (t : T) → Claimed t → (st.claim_marker key t).0 ≢ some true

-- Every signal of the strategy has this marker key.
abbrev pub HasKey : {F S T : Type 0} → Runtime F S → Config T → Text → Type 0
HasKey rt c key =
    (holdings : List Text) (s : _) (sig : Signal _)
    → (rt.compute_signals holdings s).0 ≡ ok sig
    → build_marker_key c sig ≡ key

module _ {F S T : Type 0} ⦃f : Float F⦄ (rt : Runtime F S) (c : Config T) (key : Text)
    (Claimed : T → Type 0) (has_key : HasKey rt c key)
    (laws : (st : Store T) → c.execution_state_store ≡ some st → IsClaimStore st key Claimed) where
  pub run_strategy_core-Once : Keeps (Once Claimed) (run_strategy_core rt c)
  unfolding claim_of
  run_strategy_core-Once =
      core-Keeps Once-frame
        (λ s run. record { lasting = λ p. p; sends = inl refl; closed = λ p. refl }) rt c
        (λ sig. build_marker_key c sig ≡ key) has_key
        (λ snapshot _ _ v sig same.
          follow-Keeps Once-frame
            (λ s run. record { lasting = λ p. p; sends = inl refl; closed = λ p. refl }) rt c
            snapshot v sig (record_execution_marker-Once rt c Claimed keeps sig)
            (λ w.
              claimed_execution-Once rt c Claimed keeps sig snapshot w
                (acquire-Backed c _ _ _ (λ st e. keeps st (claim_store_lem c _ st e).3)
                  (λ st a t e _ g.
                    subst
                      (λ k.
                        (st.claim_marker k (st.claim_account_owner a (owner_of c sig) t).1).0
                          ≡ some true
                        → Claimed
                            (st.claim_marker k (st.claim_account_owner a (owner_of c sig) t).1).1)
                      (sym same) ((laws st (claim_store_lem c _ st e).3).granted _)
                      g.marker_granted))
                (acquire-Shut c _ _ _ (λ st e. keeps st (claim_store_lem c _ st e).3)
                  (λ st e t p.
                    subst (λ k. (st.claim_marker k t).0 ≢ some true) (sym same)
                      ((laws st (claim_store_lem c _ st e).3).refused t p)))))
    where
      keeps : (st : Store T) → c.execution_state_store ≡ some st → StoreKeeps st Claimed
      keeps st e = (laws st e).keeps

module _ {F S S' T : Type 0} ⦃f : Float F⦄ (rt : Runtime F S) (rt' : Runtime F S') (c c' : Config T)
    (key : Text) (Claimed : T → Type 0) (has_key : HasKey rt c key) (has_key' : HasKey rt' c' key)
    (laws : (st : Store T) → c.execution_state_store ≡ some st → IsClaimStore st key Claimed)
    (laws' : (st : Store T)
      → c'.execution_state_store ≡ some st
      → IsClaimStore st key Claimed) where
  -- Of two cycles whose signals have the same marker key, one sends no order. The second starts in any
  -- state in which a marker that the first left claimed is claimed still, on stores that grant the
  -- claim of a marker once.
  pub run_strategy_core-once :
      (run : Run F (Session S T)) (run' : Run F (Session S' T))
      → (Claimed (store_of (run_strategy_core rt c run).1) → Claimed (store_of run'))
      → Silent run (run_strategy_core rt c run).1 ⊎ Silent run' (run_strategy_core rt' c' run').1
  run_strategy_core-once run run' after =
      elim ((run_strategy_core-Once rt c key Claimed has_key laws).holds run).sends [
        | inl silent ↦ inl silent
        | inr claimed ↦ inr (
            ((run_strategy_core-Once rt' c' key Claimed has_key' laws').holds run').closed
              (after claimed))
      ]
