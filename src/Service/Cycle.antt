-- ===== src/Service/Cycle.antt =====
-- application/rebalance_service.py: `run_strategy_core`, phase by phase.
use ibkrquant.Prelude.{
  Bool, false, ◌&&◌, ◌||◌, not, List, [], Option, none, some, Text, codes, is_blank_text, keys,
  get_or, Dict, if◌then◌else◌,
}
use ibkrquant.Number.{Float}
use ibkrquant.Execution.Types.{Result, ok, raise, Reason, Summary, Broker}
use ibkrquant.Execution.Run.{Run, Action, pure, ◌>>=◌, ◌>>◌, lift, gets, on_session}
use ibkrquant.Execution.Guards.{resolve_execution_mode}
use ibkrquant.Execution.Rebalance.{Args, Kit}
use ibkrquant.Execution.Cycle.{execute_rebalance}
use ibkrquant.Service.Fence.{resolve_physical_account_id}
use ibkrquant.Service.Signal.{
  Signal, Snapshot, View, or_text, resolve_cycle_allocation, cycle_symbols,
  snapshot_to_portfolio_view, strategy_portfolio_view, should_suppress_noop_notification,
  has_order_activity, is_execution_blocked, should_record_execution_marker,
  resolve_reconciliation_mode,
}
use ibkrquant.Service.Claim.{
  Store, Config, Session, scope_of, signal_date, effective_date_of, profile_of, build_marker_key,
  owner_of, acquire_execution_claim,
}

-- `execution_summary` of a cycle's record and result: empty, the one of a recorded execution, or the
-- one that the execution returned.
pub data CycleSummary (F : Type 0) : Type 0 where
  no_summary already_recorded : CycleSummary F
  finished : Summary F → CycleSummary F

-- What a cycle shows or writes: `write_reconciliation_record` with the mode, the targets, the summary
-- and the reason, the two notifications, their suppression, and the telemetry.
pub data Event (F : Type 0) : Type 0 where
  reconciliation : Text → Dict F → CycleSummary F → Text → Event F
  heartbeat notification_suppressed : Event F
  trade_notification : Summary F → Event F
  telemetry : CycleSummary F → Event F

-- `StrategyCycleResult.result`: "OK - no-op", "OK - heartbeat", "OK - executed" or "Blocked - reason"
pub data Ended (F : Type 0) : Type 0 where
  ok_no_op ok_heartbeat ok_executed : Ended F
  blocked_by : Option (Reason F) → Ended F

pub record CycleResult (F : Type 0) : Type 0 where
  pub result : Ended F
  pub target_weights : Option (Dict F)
  pub execution_summary : CycleSummary F

-- `IBKRRebalanceRuntime` with its broker session `S`, and the writes of records and notifications.
-- `settings` holds what the broker adapters pass to the execution whatever the cycle is.
pub record Runtime (F S : Type 0) : Type 0 where
  pub connect_ib : S → Result (Unit {0}) × S
  pub is_connected : S → Bool
  pub disconnect : S → S
  pub get_portfolio_snapshot : S → Result (Snapshot F) × S
  pub compute_signals : List Text → S → Result (Signal F) × S
  pub emit : Event F → S → Result (Unit {0}) × S
  pub broker : Broker F S
  pub settings : Args F
  pub kit_of : Signal F → Kit F

-- `finally: if ib.isConnected(): ib.disconnect()`
abbrev pub hang_up : {F S : Type 0} → Runtime F S → S → S
hang_up rt s = if rt.is_connected s then rt.disconnect s else s

abbrev pub mark : {T : Type 0} → Option (Store T) → Text → T → T
mark none key t = t
mark (some st) key t = if is_blank_text key then t else st.record_marker key t

abbrev mode_text : Result Text → Text
mode_text (ok m) = m
mode_text (raise e) = []

abbrev pub fresh_claim : {S T : Type 0} → Session S T → Session S T
fresh_claim s = record s { execution_claim_attempted = false; execution_claim_acquired = false }

module _ {F : Type 0} where
  abbrev shown : Bool → Event F
  shown suppressed = if suppressed then notification_suppressed else heartbeat

  abbrev quiet : Bool → Ended F
  quiet suppressed = if suppressed then ok_no_op else ok_heartbeat

  abbrev outcome_of : Summary F → Ended F
  outcome_of s =
      if is_execution_blocked s.execution_status then blocked_by s.no_op_reason else ok_executed

module _ {F S T : Type 0} where
  abbrev pub with_broker : S → Run F (Session S T) → Run F (Session S T)
  with_broker s run = record run {
    world = record run.world { session = record run.world.session { broker = s } };
  }

  -- a call that only the broker session sees
  unfoldable pub outside : {A : Type 0} → (S → Result A × S) → Action F (Session S T) A
  outside g run = let (r, s) = g run.world.session.broker in (r, with_broker s run)

  -- the broker as the execution sees it, with the claim of this cycle
  abbrev pub claiming :
      Broker F S → (Session S T → Result Bool × Session S T) → Broker F (Session S T)
  claiming b acquire = record {
    submit = λ i s. let (r, s') = b.submit i s.broker in (r, record s { broker = s' });
    claim = some acquire;
    settle = λ s. record s { broker = b.settle s.broker };
    account_values = λ s. b.account_values s.broker;
    open_orders = λ s. b.open_orders s.broker;
    fills = λ s. b.fills s.broker;
    quotes = λ symbols s. b.quotes symbols s.broker;
  }

  unfoldable pub finally_disconnect :
      {A : Type 0} → Runtime F S → Action F (Session S T) A → Action F (Session S T) A
  finally_disconnect rt m run =
      let (r, run') = m run in (r, with_broker (hang_up rt run'.world.session.broker) run')

module _ {F S T : Type 0} (rt : Runtime F S) (c : Config T) where
  unfoldable pub emit_event : Event F → Action F (Session S T) (Unit {0})
  emit_event e = outside (rt.emit e)

  -- the cycle without targets; `orders` is a name that this function never binds, so that the count is 0
  unfoldable pub noop_cycle : Signal F → Action F (Session S T) (CycleResult F)
  unfolding emit_event
  noop_cycle sig = do
    let reason = or_text sig.no_op_reason (or_text sig.fail_reason sig.snapshot_guard_decision)
    let suppressed =
        should_suppress_noop_notification sig 0 (not (is_blank_text sig.fail_reason))
          c.notify_no_trade_cycles
    emit_event (
        reconciliation (resolve_reconciliation_mode sig.dry_run_only [] c.execution_mode) []
          no_summary reason)
    emit_event (shown suppressed)
    emit_event (telemetry no_summary)
    pure (record {
      result = quiet suppressed;
      target_weights = none;
      execution_summary = no_summary;
    })

  -- the cycle whose execution is recorded already
  unfoldable pub recorded_cycle : Signal F → Dict F → Action F (Session S T) (CycleResult F)
  unfolding emit_event
  recorded_cycle sig targets = do
    emit_event (
        reconciliation (resolve_reconciliation_mode sig.dry_run_only [] c.execution_mode) targets
          already_recorded (codes "execution_already_recorded"))
    emit_event (shown (not c.notify_no_trade_cycles))
    emit_event (telemetry already_recorded)
    pure (record {
      result = quiet (not c.notify_no_trade_cycles);
      target_weights = some targets;
      execution_summary = already_recorded;
    })

  abbrev asked_reports :
      Store T → Signal F → Option (Text → Text → Text → Text → Bool → T → Option Bool) → T → Bool
  asked_reports st sig none t = false
  asked_reports st sig (some prior) t =
      get_or
        (prior (profile_of c sig) (scope_of c) (signal_date sig) (effective_date_of sig)
          c.dry_run_only t)
        false

  abbrev pub asked : Option (Store T) → Text → Signal F → T → Bool
  asked none key sig t = false
  asked (some st) key sig t =
      not (is_blank_text key)
      && (get_or (st.has_marker key t) false
          || asked_reports st sig st.has_prior_execution_report t)

  -- `execution_already_recorded`; an exception of the store counts as no
  unfoldable pub execution_already_recorded : Signal F → T → Bool
  execution_already_recorded sig = asked c.execution_state_store (build_marker_key c sig) sig

  -- the arguments of the execution in this cycle
  abbrev pub args_of : Signal F → View F → Args F
  args_of sig v = record rt.settings {
    positions = v.positions;
    equity = v.equity;
    buying_power = v.buying_power;
    allocation = sig.allocation;
    option_order_intents = sig.option_order_intents;
    trade_date = if is_blank_text sig.trade_date then none else some sig.trade_date;
    snapshot_date = sig.snapshot_date;
    small_account_warning = sig.small_account_warning;
    price_fallbacks = sig.price_fallbacks;
  }

  -- the claim that `run_strategy_core` hands to the execution
  unfoldable pub claim_of : Signal F → Snapshot F → Session S T → Result Bool × Session S T
  claim_of sig snapshot =
      acquire_execution_claim c (build_marker_key c sig) (owner_of c sig)
        (resolve_physical_account_id c.account_ids snapshot.account_ids (scope_of c))

  -- `_record_execution_marker`, if it is to be recorded
  unfoldable pub record_execution_marker : Signal F → Action F (Session S T) (Unit {0})
  record_execution_marker sig = do
    recorded ← gets λ run. should_record_execution_marker c.execution_dedup_enabled run.summary
    on_session λ s. record s {
      store =
          if recorded
          then mark c.execution_state_store (build_marker_key c sig) s.store
          else s.store;
    }

  abbrev trade_notice : Summary F → Event F
  trade_notice s =
      if has_order_activity s || c.notify_no_trade_cycles
      then trade_notification s
      else notification_suppressed

  -- what follows the execution
  unfoldable pub report_cycle : Signal F → Dict F → Action F (Session S T) (CycleResult F)
  unfolding emit_event
  report_cycle sig targets = do
    record_execution_marker sig
    s ← gets λ run. run.summary
    let mode =
        mode_text (resolve_execution_mode rt.settings.dry_run_only rt.settings.execution_mode)
    emit_event (
        reconciliation (resolve_reconciliation_mode sig.dry_run_only mode c.execution_mode) targets
          (finished s) [])
    emit_event (trade_notice s)
    emit_event (telemetry (finished s))
    pure (record {
      result = outcome_of s;
      target_weights = some targets;
      execution_summary = finished s;
    })

module _ {F S T : Type 0} ⦃f : Float F⦄ (rt : Runtime F S) (c : Config T) where
  -- the execution, with the two variables of the claim before it
  unfoldable pub claimed_execution :
      Signal F → Snapshot F → View F → Action F (Session S T) (Unit {0})
  claimed_execution sig snapshot v = do
    on_session (fresh_claim)
    execute_rebalance (args_of rt c sig v) (rt.kit_of sig)
        (claiming rt.broker (claim_of rt c sig snapshot))

  unfoldable pub trade_cycle :
      Signal F → Snapshot F → View F → Dict F → Action F (Session S T) (CycleResult F)
  trade_cycle sig snapshot v targets = do
    claimed_execution sig snapshot v
    report_cycle rt c sig targets

  -- from the allocation on
  unfoldable pub follow_signal :
      Snapshot F → View F → Signal F → Action F (Session S T) (CycleResult F)
  follow_signal snapshot v sig = do
    alloc ← lift (resolve_cycle_allocation sig.allocation sig.has_targets)
    recorded ← gets λ run. execution_already_recorded rt c sig run.world.session.store
    (if not sig.has_targets
        then noop_cycle rt c sig
        else if recorded
        then recorded_cycle rt c sig alloc.targets
        else trade_cycle sig snapshot (strategy_portfolio_view v (cycle_symbols sig alloc))
            alloc.targets)

  -- the body of the `try`, once connected
  unfoldable pub connected_cycle : Action F (Session S T) (CycleResult F)
  connected_cycle = do
    snapshot ← outside rt.get_portfolio_snapshot
    let v = snapshot_to_portfolio_view snapshot
    sig ← outside (rt.compute_signals (keys v.positions))
    follow_signal snapshot v sig

  -- `run_strategy_core`
  unfoldable pub run_strategy_core : Action F (Session S T) (CycleResult F)
  run_strategy_core = outside rt.connect_ib >>= λ _. finally_disconnect rt connected_cycle
