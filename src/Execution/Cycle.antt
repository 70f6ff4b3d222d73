-- ===== src/Execution/Cycle.antt =====
-- application/execution_service.py: `execute_rebalance`, phase by phase.
use ibkrquant.Prelude.{
  Bool, true, false, ◌||◌, not, List, [], ◌∷◌, ◌++◌, Option, none, some, Text, codes, unique,
  is_empty, lookup, contains, insert, if◌then◌else◌,
}
use ibkrquant.Number.{Float, ◌≺◌, nought, max}
use ibkrquant.Execution.Types.{
  Reason, no_equity, paper_execution_admission_blocked, pending_orders_detected,
  same_day_fills_detected, same_day_execution_locked, small_account_below_recommended_equity,
  account_new_risk_gate, pending_sell_release, Broker, Side, Status, Summary, ok,
}
use ibkrquant.Execution.Accounts.{normalize_account_ids, resolve_order_account_id}
use ibkrquant.Execution.Sizing.{investable_buying_power}
use ibkrquant.Execution.Targets.{Allocation, resolve_weight_allocation}
use ibkrquant.Execution.Run.{Action, pure, ◌>>=◌, ◌>>◌, lift, gets, update}
use ibkrquant.Execution.Plan.{Scan, no_scan, plan_sells, plan_sweep, plan_buys}
use ibkrquant.Execution.Orders.{Desk, Sells, skip_order, sell_loop, buy_loop}
use ibkrquant.Execution.Options.{option_intent_underliers, execute_option_order_intents}
use ibkrquant.Execution.Guards.{
  resolve_execution_mode, collect_pending_symbols, collect_same_day_filled_symbols, LockScope,
  resolve_execution_lock_path,
}
use ibkrquant.Execution.Rebalance.{Args, Kit, Setup, resolve_equity, set_up}
use ibkrquant.Execution.Summaries.{
  start_summary, set_status, block, note_setup, final_status, settle_plan,
}
use ibkrquant.Execution.Blocks.{
  power_now, prohibited, power_after_sales, buy_needed_symbols, block_buys,
}

module _ {F : Type 0} where
  -- the symbols that are skipped while a reason blocks the purchases
  abbrev pub skip_blocked : Text → List Text → Summary F → Summary F
  skip_blocked reason [] s = s
  skip_blocked reason (symbol ∷ ss) s = skip_blocked reason ss (skip_order symbol Side.buy reason s)

  abbrev pub block_text : Reason F → Text
  block_text small_account_below_recommended_equity = codes "small_account_below_recommended_equity"
  block_text account_new_risk_gate = codes "account_new_risk_gate"
  block_text (pending_sell_release _) = codes "pending_sell_release"
  block_text _ = codes "negative_cash"

  abbrev lock_scope : Args F → Text → LockScope
  lock_scope a mode = record {
    account_group = a.account_group;
    service_name = a.service_name;
    strategy_profile = a.strategy_profile;
    execution_mode = mode;
    trade_date = a.trade_date;
    snapshot_date = a.snapshot_date;
  }

  -- the file that a run with these arguments locks
  unfoldable pub lock_path_of : Args F → Text → Text
  lock_path_of a mode = resolve_execution_lock_path (lock_scope a mode)

-- The plan of a cycle: whether a sale or a purchase was found, the quantity of the haven to sell, and
-- the symbols for which none was.
pub record Draft (F : Type 0) : Type 0 where
  pub has_plan : Bool
  pub sweep : F
  pub scan : Scan

-- the loops that look for a sale and a purchase, with the sale of the haven between them
unfoldable pub draft : {F : Type 0} ⦃f : Float F⦄ → Kit F → Setup F → F → Draft F
draft kit u anticipated =
    let investable = investable_buying_power anticipated u.reserved in
    let sells = plan_sells u.cycle u.cycle.all_symbols no_scan in
    let sweep = plan_sweep u.cycle sells.found (prohibited kit) investable in
    let buys =
      plan_buys u.cycle investable u.cycle.terms.target_mv (record sells { found = false }) in
    record { has_plan = sells.found || nought ≺ sweep || buys.found; sweep = sweep; scan = buys }

module _ {F S : Type 0} where
  -- `_try_create_execution_lock`: whether the file was created
  unfoldable pub try_create_execution_lock : Text → Text → Action F S Bool
  try_create_execution_lock path hash run =
      if contains path run.world.locks then (ok false, run) else (
        ok true,
        record run { world = record run.world { locks = insert path hash run.world.locks } },
      )

module _ {F S : Type 0} ⦃f : Float F⦄ (a : Args F) (kit : Kit F) (desk : Desk F S) where
  -- the loop over the targets: purchases, or the reason that none are made
  unfoldable pub purchases : Setup F → F → Option (Reason F) → Action F S F
  purchases u investable none = buy_loop desk u.cycle u.cycle.terms.target_mv investable
  purchases u investable (some reason) = do
    update (skip_blocked (block_text reason) (buy_needed_symbols u))
    pure investable

  abbrev pub no_sells : Sells F
  no_sells = record {
    sell_executed = false;
    projected_sell_release_value = nought;
    pending_sell_release_symbols = [];
    dry_run_sale_proceeds = nought;
  }

  -- What happens once the lock is held: sales, purchases, option orders, and the final status.
  unfoldable pub trade : Setup F → F → F → Action F S (Unit {0})
  trade u anticipated sweep = do
    update λ s. record s { execution_status = Status.executing }
    v ← sell_loop desk u.cycle sweep u.cycle.all_symbols no_sells
    power ← power_after_sales a kit desk anticipated v
    update λ s. record s { projected_sell_release_value = v.projected_sell_release_value }
    let investable = investable_buying_power power u.reserved
    reason ← block_buys a kit desk u investable (unique v.pending_sell_release_symbols)
    purchases u investable reason
    left ← execute_option_order_intents desk a.option_order_intents power
    update λ s. record (final_status s) { residual_cash_estimate = max left nought }

  -- From the creation of the lock file on.
  unfoldable pub take_lock : Text → Setup F → F → F → Action F S (Unit {0})
  take_lock mode u anticipated sweep = do
    created ← try_create_execution_lock (lock_path_of a mode) (kit.target_hash u.target_weights)
    update λ s. record s { lock_path = some (lock_path_of a mode) }
    (if created then trade u anticipated sweep else (do
      held ← gets λ run. lookup (lock_path_of a mode) run.world.locks
      update (block (same_day_execution_locked mode held))))

  -- From the check of the day's fills on.
  unfoldable pub lock_and_trade : Text → Setup F → F → F → Action F S (Unit {0})
  lock_and_trade mode u anticipated sweep = do
    filled ← gets λ run.
        collect_same_day_filled_symbols (desk.broker.fills run.world.session)
          (u.cycle.all_symbols ++ option_intent_underliers a.option_order_intents) a.trade_date
          (normalize_account_ids a.account_ids)
    (if not (is_empty filled)
        then update (block (same_day_fills_detected filled))
        else take_lock mode u anticipated sweep)

  -- what is noted when nothing is planned, and whether the function goes on
  unfoldable pub conclude_plan : Scan → Action F S Bool
  conclude_plan scan run =
      let (s, goes_on) = settle_plan a scan run.summary in (ok goes_on, record run { summary = s })

  unfoldable pub follow_draft : Text → Setup F → F → Draft F → Action F S (Unit {0})
  follow_draft mode u anticipated d =
      if d.has_plan then lock_and_trade mode u anticipated d.sweep else (do
        goes_on ← conclude_plan d.scan
        (if goes_on then lock_and_trade mode u anticipated d.sweep else pure tt))

  -- The plan of the cycle, and what follows from it.
  unfoldable pub plan_and_trade : Text → Setup F → Action F S (Unit {0})
  plan_and_trade mode u = do
    anticipated ← power_now a kit desk
    follow_draft mode u anticipated (draft kit u anticipated)

  abbrev pub admitted : Setup F → Bool
  admitted u = elim kit.paper_admission [
    | none ↦ true
    | some admit ↦ admit u.cycle.terms.prices u.cycle.terms.target_mv
  ]

  -- From the admission on.
  unfoldable pub admit_and_plan : Text → Setup F → Action F S (Unit {0})
  admit_and_plan mode u = do
    update (note_setup u)
    pending ← gets λ run.
        collect_pending_symbols (desk.broker.open_orders run.world.session)
          (u.cycle.all_symbols ++ option_intent_underliers a.option_order_intents)
          (normalize_account_ids a.account_ids)
    (if not (admitted u)
        then update (block paper_execution_admission_blocked)
        else if not (is_empty pending)
        then update (block (pending_orders_detected pending))
        else plan_and_trade mode u)

module _ {F S : Type 0} ⦃f : Float F⦄ (a : Args F) (kit : Kit F) (broker : Broker F S) where
  abbrev pub desk_for : Option Text → Desk F S
  desk_for account = record {
    broker = broker;
    dry_run_only = a.dry_run_only;
    order_account_id = account;
  }

  -- From the equity on; `none` is the early return without equity.
  unfoldable pub with_equity : Allocation F → Text → Option Text → Option F → Action F S (Unit {0})
  with_equity alloc mode account none = update (set_status Status.blocked (some no_equity))
  with_equity alloc mode account (some equity) = do
    u ← gets λ run. set_up a kit alloc equity (λ ss. broker.quotes ss run.world.session)
    admit_and_plan a kit (desk_for account) mode u

  -- `execute_rebalance`
  unfoldable pub execute_rebalance : Action F S (Unit {0})
  execute_rebalance = do
    alloc ← lift (resolve_weight_allocation a.allocation)
    mode ← lift (resolve_execution_mode a.dry_run_only a.execution_mode)
    account ← lift (resolve_order_account_id (normalize_account_ids a.account_ids))
    update λ _. start_summary a.buying_power
    with_equity alloc mode account (resolve_equity a)
