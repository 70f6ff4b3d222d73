-- ===== src/Examples/Cycles.antt =====
-- application/rebalance_service.py: the theorems on cycles, applied to the account of the samples.
use ibkrquant.Prelude.{
  ◌≡◌, refl, sym, ap, ◌⊎◌, Bool, true, false, not, List, [], ◌∷◌, ◌++◌, Option, none, some, Text,
  codes, mem_text, text_eq_refl, arith, ◌&&◌, is_blank_text, upper, strip, text_eq,
}
use mathlib.Core.Path.{subst, ◌∙◌}
use ibkrquant.Number.Fixed.{Fixed, fixed_float, dollars}
use ibkrquant.Execution.Types.{Result, ok, raise, Summary}
use ibkrquant.Execution.Run.{Run}
use ibkrquant.Execution.Summaries.{start_summary}
use ibkrquant.Examples.Samples.{voo, xlk, args, kit, report_of}
use ibkrquant.Service.Signal.{Signal, Snapshot, should_record_execution_marker}
use ibkrquant.Service.Claim.{Store, Config, Session, build_marker_key}
use ibkrquant.Service.Cycle.{
  CycleResult, CycleSummary, ok_no_op, no_summary, already_recorded, finished, Runtime,
  run_strategy_core,
}
use ibkrquant.Service.Once.{Silent, store_of}
use ibkrquant.Service.AtMostOnce.{HasKey, IsClaimStore, run_strategy_core-once}
use ibkrquant.Service.Fenced.{Fenced, run_strategy_core-Fenced}
use ibkrquant.Service.Marks.{run_strategy_core-again}
use ibkrquant.Service.Recorded.{run_strategy_core-recorded, run_strategy_core-disconnected}

-- A marker store in memory: the markers that are claimed, and those that are recorded.
abbrev Markers : Type 0
Markers = List Text × List Text

abbrev memory : Store Markers
memory = record {
  has_marker = λ key t. some (mem_text key t.1);
  has_prior_execution_report = none;
  claim_account_owner = λ account owner t. (some true, t);
  claim_marker = λ key t. (some (not (mem_text key t.0)), (key ∷ t.0, t.1));
  record_marker = λ key t. (t.0, key ∷ t.1);
}

abbrev config : Config Markers
config = record {
  strategy_profile = codes "rotation";
  execution_mode = codes "paper";
  dry_run_only = false;
  notify_no_trade_cycles = true;
  execution_dedup_enabled = true;
  execution_state_store = some memory;
  execution_state_account_scope = [];
  account_ids = codes "U1" ∷ [];
  build_execution_marker_key = λ profile scope mode date effective timing. profile ++ date;
}

abbrev signal : Signal Fixed
signal = record {
  has_targets = true;
  allocation = (args false).allocation;
  managed_symbols = [];
  strategy_profile = [];
  trade_date = codes "2026-03-26";
  effective_date = [];
  snapshot_date = none;
  execution_timing_contract = [];
  dry_run_only = false;
  no_op_reason = [];
  fail_reason = [];
  snapshot_guard_decision = [];
  status_code = [];
  actionable = true;
  risk_flags = [];
  option_order_intents = [];
  small_account_warning = false;
  price_fallbacks = [];
}

abbrev portfolio : Snapshot Fixed
portfolio = record {
  positions = record { symbol = voo; quantity = dollars 60; average_cost = some (dollars 90) } ∷ [];
  total_equity = some (dollars 10_000);
  buying_power = some (dollars 4000);
  account_ids = [];
}

-- The session says whether it is connected.
abbrev runtime : Runtime Fixed Bool
runtime = record {
  connect_ib = λ s. (ok tt, true);
  is_connected = λ s. s;
  disconnect = λ s. false;
  get_portfolio_snapshot = λ s. (ok portfolio, s);
  compute_signals = λ holdings s. (ok signal, s);
  emit = λ e s. (ok tt, s);
  broker = record {
    submit = λ i s. (ok (report_of i), s);
    claim = none;
    settle = λ s. s;
    account_values = λ _. [];
    open_orders = λ _. [];
    fills = λ _. [];
    quotes = λ _ _. (voo, dollars 100) ∷ (xlk, dollars 200) ∷ [];
  };
  settings = args false;
  kit_of = λ _. kit;
}

abbrev start : Markers → Run Fixed (Session Bool Markers)
start markers = record {
  world = record {
    session = record {
      broker = false;
      store = markers;
      execution_claim_attempted = false;
      execution_claim_acquired = false;
    };
    sent = [];
    locks = [];
  };
  summary = start_summary (dollars 0);
}

abbrev key : Text
key = codes "rotation2026-03-26"

key_is : build_marker_key config signal ≡ key
unfolding build_marker_key
key_is = refl

runtime-HasKey : HasKey runtime config key
runtime-HasKey holdings s sig e =
    (let same : signal ≡ sig = cc in sym (ap (build_marker_key config) same) ∙ key_is)

memory_is : (st : Store Markers) → config.execution_state_store ≡ some st → memory ≡ st
memory_is st e = cc

mem_text-tail : (k j : Text) (ks : List Text) → mem_text k ks ≡ true → mem_text k (j ∷ ks) ≡ true
unfolding mem_text
mem_text-tail k j ks h = ground arith

mem_text-head : (k : Text) (ks : List Text) → mem_text k (k ∷ ks) ≡ true
unfolding mem_text
mem_text-head k ks = rw (text_eq_refl k) refl

memory-IsClaimStore : IsClaimStore memory key (λ t. mem_text key t.0 ≡ true)
memory-IsClaimStore = record {
  keeps = record {
    on_owner = λ account owner t p. p;
    on_claim = λ k t p. mem_text-tail key k t.0 p;
    on_record = λ k t p. p;
  };
  granted = λ t e. mem_text-head key t.0;
  refused = λ t p e. ground arith;
}

config-IsClaimStore :
    (st : Store Markers)
    → config.execution_state_store ≡ some st
    → IsClaimStore st key (λ t. mem_text key t.0 ≡ true)
config-IsClaimStore st e =
    subst (λ x. IsClaimStore x key (λ t. mem_text key t.0 ≡ true)) (memory_is st e)
      memory-IsClaimStore

abbrev first : Run Fixed (Session Bool Markers)
first = start ([], [])

abbrev second : Run Fixed (Session Bool Markers)
second = (run_strategy_core runtime config first).1

run_strategy_core-once_example :
    Silent first (run_strategy_core runtime config first).1
    ⊎ Silent second (run_strategy_core runtime config second).1
run_strategy_core-once_example =
    run_strategy_core-once runtime runtime config config key (λ t. mem_text key t.0 ≡ true)
      runtime-HasKey runtime-HasKey config-IsClaimStore config-IsClaimStore first second (λ p. p)

run_strategy_core-Fenced_example :
    Silent first (run_strategy_core runtime config first).1 ⊎ Fenced runtime config first
run_strategy_core-Fenced_example = run_strategy_core-Fenced runtime config first

abbrev done : Run Fixed (Session Bool Markers)
done = start ([], key ∷ [])

run_strategy_core-recorded_example :
    (store_of (run_strategy_core runtime config done).1 ≡ ([], key ∷ []))
    × Silent done (run_strategy_core runtime config done).1
run_strategy_core-recorded_example =
    run_strategy_core-recorded runtime config key memory runtime-HasKey refl refl done
      (ap some (mem_text-head key []))

run_strategy_core-disconnected_example :
    (run_strategy_core runtime config first).1.world.session.broker ≡ false
run_strategy_core-disconnected_example =
    run_strategy_core-disconnected runtime config (λ s. refl) first refl

-- A dry run, in which the orders are previewed.
abbrev dry_runtime : Runtime Fixed Bool
dry_runtime = record runtime { settings = args true }

abbrev result_of : Result (CycleResult Fixed) → CycleResult Fixed
result_of (ok r) = r
result_of (raise e) = record {
  result = ok_no_op;
  target_weights = none;
  execution_summary = no_summary;
}

abbrev summary_of : CycleSummary Fixed → Summary Fixed
summary_of (finished s) = s
summary_of _ = start_summary (dollars 0)

is_ok : Result (CycleResult Fixed) → Bool
is_ok (ok r) = true
is_ok (raise e) = false

is_finished : CycleSummary Fixed → Bool
is_finished (finished s) = true
is_finished _ = false

is_ok_lem : (r : Result (CycleResult Fixed)) → is_ok r ≡ true → r ≡ ok (result_of r)
unfolding is_ok
is_ok_lem (ok r) h = refl
is_ok_lem (raise e) h = cc

is_finished_lem : (x : CycleSummary Fixed) → is_finished x ≡ true → x ≡ finished (summary_of x)
unfolding is_finished
is_finished_lem (finished s) h = refl
is_finished_lem no_summary h = cc
is_finished_lem already_recorded h = cc

abbrev res : CycleResult Fixed
res = result_of (run_strategy_core dry_runtime config first).0

abbrev after : Run Fixed (Session Bool Markers)
after = start (store_of (run_strategy_core dry_runtime config first).1)

dry_run_ended :
    (is_ok (run_strategy_core dry_runtime config first).0 ≡ true)
    × (is_finished res.execution_summary ≡ true)
    × (should_record_execution_marker true (summary_of res.execution_summary) ≡ true)
unfolding is_ok is_finished ibkrquant.Number.max ibkrquant.Number.min ibkrquant.Number.is_zero
    ibkrquant.Number.sum_from ibkrquant.Execution.Summaries.final_status
    ibkrquant.Execution.Blocks.power_after_sales ibkrquant.Execution.Blocks.early_block
    ibkrquant.Execution.Blocks.rotation_block ibkrquant.Execution.Blocks.raw_cash
    ibkrquant.Execution.Blocks.overdrawn ibkrquant.Execution.Blocks.cash_block
    ibkrquant.Execution.Blocks.or_else ibkrquant.Execution.Blocks.block_buys
    ibkrquant.Execution.Guards.resolve_execution_mode
    ibkrquant.Execution.Guards.collect_pending_symbols
    ibkrquant.Execution.Guards.collect_same_day_filled_symbols
    ibkrquant.Execution.Options.record_unsupported_option_intents
    ibkrquant.Execution.Options.option_loop ibkrquant.Execution.Options.execute_option_order_intents
    ibkrquant.Execution.Cycle.draft ibkrquant.Execution.Cycle.try_create_execution_lock
    ibkrquant.Execution.Cycle.purchases ibkrquant.Execution.Cycle.trade
    ibkrquant.Execution.Cycle.take_lock ibkrquant.Execution.Cycle.lock_and_trade
    ibkrquant.Execution.Cycle.follow_draft ibkrquant.Execution.Cycle.plan_and_trade
    ibkrquant.Execution.Cycle.admit_and_plan ibkrquant.Execution.Cycle.with_equity
    ibkrquant.Execution.Cycle.execute_rebalance ibkrquant.Execution.Sizing.investable_buying_power
    ibkrquant.Execution.Run.pure ibkrquant.Execution.Run.◌>>=◌ ibkrquant.Execution.Run.lift
    ibkrquant.Execution.Run.gets ibkrquant.Execution.Run.update ibkrquant.Execution.Run.on_session
    ibkrquant.Execution.Rebalance.resolve_equity ibkrquant.Execution.Rebalance.set_up
    ibkrquant.Execution.Plan.plan_sells ibkrquant.Execution.Orders.sell_turn
    ibkrquant.Execution.Orders.buy_turn ibkrquant.Execution.Orders.sell_act
    ibkrquant.Execution.Orders.sell_loop ibkrquant.Execution.Orders.buy_act
    ibkrquant.Execution.Orders.buy_loop ibkrquant.Execution.Accounts.resolve_order_account_id
    ibkrquant.Execution.Accounts.cash_value_for_currency
    ibkrquant.Execution.Accounts.get_available_buying_power
    ibkrquant.Execution.Targets.resolve_weight_allocation
    ibkrquant.Execution.Targets.apply_safe_haven_cash_substitution
    ibkrquant.Execution.Targets.apply_snapshot_price_fallbacks
    ibkrquant.Execution.Targets.normalize_price_fallbacks
    ibkrquant.Service.Signal.resolve_cycle_allocation ibkrquant.Service.Signal.cycle_symbols
    ibkrquant.Service.Signal.snapshot_to_portfolio_view
    ibkrquant.Service.Signal.strategy_portfolio_view
    ibkrquant.Service.Signal.should_record_execution_marker ibkrquant.Service.Claim.build_marker_key
    ibkrquant.Service.Cycle.outside ibkrquant.Service.Cycle.finally_disconnect
    ibkrquant.Service.Cycle.execution_already_recorded
    ibkrquant.Service.Cycle.record_execution_marker ibkrquant.Service.Cycle.report_cycle
    ibkrquant.Service.Cycle.claimed_execution ibkrquant.Service.Cycle.trade_cycle
    ibkrquant.Service.Cycle.follow_signal ibkrquant.Service.Cycle.connected_cycle
    ibkrquant.Service.Cycle.run_strategy_core ibkrquant.Prelude.text_eq ibkrquant.Prelude.sorted
    ibkrquant.Prelude.contains
dry_run_ended = (refl, refl, refl)

memory-marks : (t : Markers) → memory.has_marker key (memory.record_marker key t) ≡ some true
memory-marks t = ap some (mem_text-head key t.1)

run_strategy_core-again_example :
    (store_of (run_strategy_core runtime config after).1 ≡ store_of after)
    × Silent after (run_strategy_core runtime config after).1
run_strategy_core-again_example =
    run_strategy_core-again dry_runtime runtime config config key memory runtime-HasKey
      runtime-HasKey refl refl refl memory-marks first res (summary_of res.execution_summary)
      (is_ok_lem _ dry_run_ended.0) (is_finished_lem _ dry_run_ended.1) dry_run_ended.2 after refl
