-- ===== src/Service/Recorded.antt =====
-- application/rebalance_service.py: a cycle that is recorded already, and the end of every cycle.
use ibkrquant.Prelude.{
  ◌≡◌, refl, inl, inr, Bool-cases, sym, ◌∙◌, Bool, true, false, not, some, Text, is_blank_text,
  arith,
}
use mathlib.Core.Path.{subst}
use ibkrquant.Number.{Float}
use ibkrquant.Execution.Types.{Result, ok, raise}
use ibkrquant.Execution.Run.{Run, Action, next, ◌>>=◌, gets}
use ibkrquant.Execution.Effects.{Keeps, Frame, if-Keeps, lift-bind-Keeps}
use ibkrquant.Service.Signal.{Signal, Snapshot, View}
use ibkrquant.Service.Claim.{Store, Config, Session, build_marker_key}
use ibkrquant.Service.Cycle.{
  CycleResult, Runtime, outside, with_broker, hang_up, finally_disconnect, connected_cycle, asked,
  execution_already_recorded, follow_signal, run_strategy_core,
}
use ibkrquant.Service.Whole.{noop-Keeps, recorded-Keeps, core-Keeps}
use ibkrquant.Service.Once.{Silent, store_of}
use ibkrquant.Service.AtMostOnce.{HasKey}

-- From a store with `P`, no order is sent, and the store is left as it is.
pub record Rests {F S T : Type 0} (P : T → Type 0) (r s : Run F (Session S T)) : Type 0 where
  pub holds : P (store_of r) → (store_of s ≡ store_of r) × Silent r s

module _ {F S T : Type 0} {P : T → Type 0} where
  Rests-frame : Frame (Rests {F = F} {S = S} {T = T} P)
  Rests-frame = record {
    stay = λ run. record { holds = λ p. (refl, refl) };
    chain = λ r s t p q. record {
      holds =
          λ x. let a = p.holds x in let b = q.holds (subst P (sym a.0) x) in (b.0 ∙ a.0, b.1 ∙ a.1);
    };
    on_summary = λ run s. record { holds = λ p. (refl, refl) };
  }

  -- a test of the store that `P` decides, before a branch
  decided-Rests :
      {A : Type 0} (test : T → Bool) (k : Bool → Action F (Session S T) A)
      → ((t : T) → P t → test t ≡ true)
      → Keeps (Rests P) (k true)
      → Keeps (Rests P) (gets (λ run. test (store_of run)) >>= k)
  unfolding gets ◌>>=◌
  decided-Rests test k h hk = record {
    holds = λ run. record {
      holds = λ p.
          subst (λ b. (store_of (k b run).1 ≡ store_of run) × Silent run (k b run).1)
            (sym (h (store_of run) p)) ((hk.holds run).holds p);
    };
  }

module _ {F S T : Type 0} ⦃f : Float F⦄ (rt : Runtime F S) (c : Config T) (key : Text)
    (st : Store T) (has_key : HasKey rt c key) (configured : c.execution_state_store ≡ some st)
    (not_blank : is_blank_text key ≡ false) where
  abbrev IsMarked : T → Type 0
  IsMarked t = st.has_marker key t ≡ some true

  marked_asked : (sig : Signal F) (t : T) → IsMarked t → asked rt c (some st) key sig t ≡ true
  marked_asked sig t h = ground arith

  already_recorded-IsMarked :
      (sig : Signal F)
      → build_marker_key c sig ≡ key
      → (t : T) → IsMarked t
      → execution_already_recorded rt c sig t ≡ true
  unfolding execution_already_recorded
  already_recorded-IsMarked sig same t h =
      subst (λ o. asked rt c o (build_marker_key c sig) sig t ≡ true) (sym configured)
        (subst (λ k. asked rt c (some st) k sig t ≡ true) (sym same) (marked_asked sig t h))

  on_outside : (s : S) (run : Run F (Session S T)) → Rests IsMarked run (with_broker s run)
  on_outside s run = record { holds = λ p. (refl, refl) }

  follow_signal-Rests :
      (snapshot : Snapshot F) (v : View F) (sig : Signal F)
      → build_marker_key c sig ≡ key
      → Keeps (Rests IsMarked) (follow_signal rt c snapshot v sig)
  unfolding follow_signal
  follow_signal-Rests snapshot v sig same = lift-bind-Keeps Rests-frame _ λ alloc _.
      decided-Rests (execution_already_recorded rt c sig) _ (already_recorded-IsMarked sig same) (
        if-Keeps Rests-frame (not sig.has_targets) (λ _. noop-Keeps Rests-frame on_outside rt c sig)
          (λ _. recorded-Keeps Rests-frame on_outside rt c sig alloc.targets))

  -- When the store has the marker of the signals already, a cycle sends no order, and it leaves the
  -- store as it is.
  pub run_strategy_core-recorded :
      (run : Run F (Session S T))
      → st.has_marker key (store_of run) ≡ some true
      → (store_of (run_strategy_core rt c run).1 ≡ store_of run)
        × Silent run (run_strategy_core rt c run).1
  run_strategy_core-recorded run =
      ((core-Keeps Rests-frame on_outside rt c (λ sig. build_marker_key c sig ≡ key) has_key
          (λ snapshot s e v sig same. follow_signal-Rests snapshot v sig same)).holds
        run).holds

module _ {F S T : Type 0} ⦃f : Float F⦄ (rt : Runtime F S) (c : Config T)
    (hung_up : (s : S) → rt.is_connected (rt.disconnect s) ≡ false) where
  hang_up_lem : (s : S) → rt.is_connected (hang_up rt s) ≡ false
  hang_up_lem s = elim (Bool-cases (rt.is_connected s)) [
    | inl up ↦ rw up (hung_up s)
    | inr closed ↦ rw closed closed
  ]

  next-hung_up :
      (r : Result (Unit {0})) (m : Action F (Session S T) (CycleResult F))
      (run : Run F (Session S T))
      → r ≡ ok tt
      → rt.is_connected (next r (λ _. finally_disconnect rt m) run).1.world.session.broker ≡ false
  unfolding finally_disconnect
  next-hung_up (ok a) m run e = hang_up_lem _
  next-hung_up (raise x) m run e = cc

  -- A cycle that connected to the broker is disconnected at its end, whether it returns or raises, where
  -- the broker's `disconnect` ends the connection.
  pub run_strategy_core-disconnected :
      (run : Run F (Session S T))
      → (rt.connect_ib run.world.session.broker).0 ≡ ok tt
      → rt.is_connected (run_strategy_core rt c run).1.world.session.broker ≡ false
  unfolding run_strategy_core outside ◌>>=◌
  run_strategy_core-disconnected run e = next-hung_up _ (connected_cycle rt c) _ e
