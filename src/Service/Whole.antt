-- ===== src/Service/Whole.antt =====
-- application/rebalance_service.py: a relation that the statements of a cycle keep is kept by
-- `run_strategy_core`.
use ibkrquant.Prelude.{◌≡◌, refl, not, List, Text, Dict}
use ibkrquant.Number.{Float}
use ibkrquant.Execution.Types.{Result, ok, raise}
use ibkrquant.Execution.Run.{Run, Action, next, ◌>>=◌}
use ibkrquant.Execution.Effects.{
  Keeps, Frame, stay-Keeps, bind-Keeps, if-Keeps, read-Keeps, lift-bind-Keeps,
}
use ibkrquant.Service.Signal.{Signal, Snapshot, View}
use ibkrquant.Service.Claim.{Config, Session}
use ibkrquant.Service.Cycle.{
  Event, Runtime, with_broker, outside, hang_up, finally_disconnect, noop_cycle, recorded_cycle,
  record_execution_marker, report_cycle, claimed_execution, trade_cycle, follow_signal,
  connected_cycle, run_strategy_core, emit_event,
}

module _ {F S T : Type 0} {R : Run F (Session S T) → Run F (Session S T) → Type 0} (frame : Frame R)
    (on_outside : (s : S) (run : Run F (Session S T)) → R run (with_broker s run)) where
  outside-Keeps : {A : Type 0} (g : S → Result A × S) → Keeps R (outside {F = F} {T = T} g)
  unfolding outside
  outside-Keeps g = record { holds = λ run. on_outside (g run.world.session.broker).1 run }

  outside-bind-holds :
      {A B : Type 0} (r : Result A) {k : A → Action F (Session S T) B}
      → ((a : A) → r ≡ ok a → Keeps R (k a))
      → (s : S) (run : Run F (Session S T)) → R run (next r k (with_broker s run)).1
  outside-bind-holds (ok a) {k} h s run =
      frame.chain run (with_broker s run) (k a (with_broker s run)).1 (on_outside s run)
        ((h a refl).holds (with_broker s run))
  outside-bind-holds (raise e) h s run = on_outside s run

  outside-bind-Keeps :
      {A B : Type 0} (g : S → Result A × S) {k : A → Action F (Session S T) B}
      → ((a : A) (s : S) → (g s).0 ≡ ok a → Keeps R (k a))
      → Keeps R (outside g >>= k)
  unfolding outside ◌>>=◌
  outside-bind-Keeps g h = record {
    holds = λ run.
        outside-bind-holds (g run.world.session.broker).0 (λ a e. h a run.world.session.broker e)
          (g run.world.session.broker).1 run;
  }

  finally-Keeps :
      {A : Type 0} (rt : Runtime F S) {m : Action F (Session S T) A}
      → Keeps R m
      → Keeps R (finally_disconnect rt m)
  unfolding finally_disconnect
  finally-Keeps rt {m} h = record {
    holds = λ run.
        frame.chain run (m run).1
          (with_broker (hang_up rt (m run).1.world.session.broker) (m run).1) (h.holds run)
          (on_outside (hang_up rt (m run).1.world.session.broker) (m run).1);
  }

  module _ (rt : Runtime F S) (c : Config T) where
    emit-Keeps : (e : Event F) → Keeps R (emit_event rt c e)
    unfolding emit_event
    emit-Keeps e = outside-Keeps (rt.emit e)

    pub noop-Keeps : (sig : Signal F) → Keeps R (noop_cycle rt c sig)
    unfolding noop_cycle
    noop-Keeps sig = bind-Keeps frame (emit-Keeps _) λ _.
        bind-Keeps frame (emit-Keeps _) λ _. bind-Keeps frame (emit-Keeps _) λ _. stay-Keeps frame _

    pub recorded-Keeps :
        (sig : Signal F) (targets : Dict F) → Keeps R (recorded_cycle rt c sig targets)
    unfolding recorded_cycle
    recorded-Keeps sig targets = bind-Keeps frame (emit-Keeps _) λ _.
        bind-Keeps frame (emit-Keeps _) λ _. bind-Keeps frame (emit-Keeps _) λ _. stay-Keeps frame _

    pub report-Keeps :
        (sig : Signal F) (targets : Dict F)
        → Keeps R (record_execution_marker rt c sig)
        → Keeps R (report_cycle rt c sig targets)
    unfolding report_cycle
    report-Keeps sig targets marked = bind-Keeps frame marked λ _.
        bind-Keeps frame (read-Keeps frame _) λ s. bind-Keeps frame (emit-Keeps _) λ _.
          bind-Keeps frame (emit-Keeps _)
            λ _. bind-Keeps frame (emit-Keeps _) λ _. stay-Keeps frame _

  module _ ⦃f : Float F⦄ (rt : Runtime F S) (c : Config T) where
    pub follow-Keeps :
        (snapshot : Snapshot F) (v : View F) (sig : Signal F)
        → Keeps R (record_execution_marker rt c sig)
        → ((w : View F) → Keeps R (claimed_execution rt c sig snapshot w))
        → Keeps R (follow_signal rt c snapshot v sig)
    unfolding follow_signal trade_cycle
    follow-Keeps snapshot v sig marked traded = lift-bind-Keeps frame _ λ alloc _.
        bind-Keeps frame (read-Keeps frame _) λ recorded.
          if-Keeps frame (not sig.has_targets) (λ _. noop-Keeps rt c sig)
            λ _.
              if-Keeps frame recorded (λ _. recorded-Keeps rt c sig alloc.targets)
                λ _. bind-Keeps frame (traded _) λ _. report-Keeps rt c sig alloc.targets marked

    -- `Known` is what is known of the signals that the strategy computes.
    pub core-Keeps :
        (Known : Signal F → Type 0)
        → ((holdings : List Text) (s : S) (sig : Signal F)
            → (rt.compute_signals holdings s).0 ≡ ok sig
            → Known sig)
        → ((snapshot : Snapshot F) (s : S)
            → (rt.get_portfolio_snapshot s).0 ≡ ok snapshot
            → (v : View F) (sig : Signal F) → Known sig
            → Keeps R (follow_signal rt c snapshot v sig))
        → Keeps R (run_strategy_core rt c)
    unfolding run_strategy_core connected_cycle
    core-Keeps Known known followed = bind-Keeps frame (outside-Keeps rt.connect_ib) λ _.
        finally-Keeps rt (
          outside-bind-Keeps rt.get_portfolio_snapshot λ snapshot s₁ e₁.
            outside-bind-Keeps (rt.compute_signals _)
              λ sig s e. followed snapshot s₁ e₁ _ sig (known _ s sig e))
