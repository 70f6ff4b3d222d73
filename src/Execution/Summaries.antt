-- ===== src/Execution/Summaries.antt =====
-- application/execution_service.py: the summary of a run, from its first state to its final status.
use ibkrquant.Prelude.{
  Bool, true, false, ◌&&◌, ◌||◌, not, List, [], ◌∷◌, Option, none, some, Text, codes, is_empty,
  if◌then◌else◌,
}
use ibkrquant.Number.{Float, nought}
use ibkrquant.Execution.Types.{
  Reason, target_diff_below_threshold, option_orders_skipped, submit_failed, option_submit_failed,
  broker_order_pending_confirmation, missing_price, Status, Buckets, Summary,
}
use ibkrquant.Execution.Outcome.{append}
use ibkrquant.Execution.Plan.{Scan, nothing_planned}
use ibkrquant.Execution.Orders.{add_reason, on_orders}
use ibkrquant.Execution.Options.{has_executable_option_plan, record_unsupported_option_intents}
use ibkrquant.Execution.Rebalance.{Args, Setup}

module _ {F : Type 0} ⦃f : Float F⦄ where
  abbrev no_orders : Buckets F
  no_orders = record {
    submitted = [];
    pending = [];
    filled = [];
    partially_filled = [];
    skipped = [];
  }

  -- `execution_summary` as it is first built
  abbrev pub start_summary : F → Summary F
  start_summary buying_power = record {
    orders = no_orders;
    option_orders = no_orders;
    skipped_reasons = [];
    execution_status = Status.not_started;
    no_op_reason = none;
    cash_reserve_dollars = nought;
    safe_haven_cash_substituted_symbols = [];
    small_account_whole_share_substituted_symbols = [];
    small_account_safe_haven_cash_substituted_symbols = [];
    small_account_buy_block_reason = none;
    account_new_risk_block_reason = none;
    account_new_risk_reason_codes = [];
    snapshot_price_fallback_symbols = [];
    pending_sell_release_symbols = [];
    projected_sell_release_value = nought;
    residual_cash_estimate = buying_power;
    lock_path = none;
  }

  abbrev pub set_status : Status → Option (Reason F) → Summary F → Summary F
  set_status status reason s = record s { execution_status = status; no_op_reason = reason }

  -- The early returns: the run is blocked, and the reason is noted twice.
  abbrev pub block : Reason F → Summary F → Summary F
  block reason s = add_reason reason (set_status Status.blocked (some reason) s)

  abbrev pub note_setup : Setup F → Summary F → Summary F
  note_setup u s = record s {
    cash_reserve_dollars = u.reserved;
    safe_haven_cash_substituted_symbols = u.haven_substituted;
    small_account_whole_share_substituted_symbols = u.whole_share_substituted;
    small_account_safe_haven_cash_substituted_symbols = u.havens_cleared;
    snapshot_price_fallback_symbols = u.fallback_symbols;
  }

  -- `reason.startswith(("submit_failed:", "option_submit_failed:"))`
  abbrev is_submit_failure : Reason F → Bool
  is_submit_failure (submit_failed symbol status) = true
  is_submit_failure (option_submit_failed symbol status) = true
  is_submit_failure _ = false

  abbrev submission_failure : List (Reason F) → Option (Reason F)
  submission_failure [] = none
  submission_failure (r ∷ rs) = if is_submit_failure r then some r else submission_failure rs

  abbrev pub has_terminal_order : Summary F → Bool
  has_terminal_order s =
      not (is_empty s.orders.submitted)
      || not (is_empty s.orders.filled)
      || not (is_empty s.orders.partially_filled)
      || not (is_empty s.option_orders.submitted)
      || not (is_empty s.option_orders.filled)
      || not (is_empty s.option_orders.partially_filled)

  abbrev pub has_pending_order : Summary F → Bool
  has_pending_order s = not (is_empty s.orders.pending) || not (is_empty s.option_orders.pending)

  -- The status of a run whose orders are placed.
  unfoldable pub final_status : Summary F → Summary F
  final_status s =
      if has_pending_order s
      then set_status Status.pending_reconciliation (some broker_order_pending_confirmation) s
      else if has_terminal_order s
      then set_status Status.executed none s
      else elim (submission_failure s.skipped_reasons) [
        | some reason ↦ set_status Status.blocked (some reason) s
        | none ↦ record s { execution_status = Status.no_op }
      ]

  -- `reason == "target_diff_below_threshold"`
  abbrev is_below_threshold : Reason F → Bool
  is_below_threshold target_diff_below_threshold = true
  is_below_threshold _ = false

  -- `orders_skipped.extend({"symbol", "reason": "missing_price"} ...)`
  abbrev skip_missing : List Text → Summary F → Summary F
  skip_missing [] s = s
  skip_missing (symbol ∷ ss) s = skip_missing ss (
      on_orders
        (λ b. record b {
          skipped = append b.skipped (record {
            symbol = symbol;
            action = none;
            quantity = none;
            limit_price = none;
            reason = codes "missing_price";
          });
        })
        s)

  abbrev skip_unpriced : Reason F → Summary F → Summary F
  skip_unpriced (missing_price symbols) s = skip_missing symbols s
  skip_unpriced _ s = s

  -- What is decided when neither loop of the plan found an order. With option orders to execute and
  -- no other reason the function goes on, and otherwise it returns.
  unfoldable pub settle_plan : Args F → Scan → Summary F → Summary F × Bool
  settle_plan a scan s =
      let (reason, status) = nothing_planned scan in
      let goes_on =
        is_below_threshold reason && has_executable_option_plan a.option_order_intents in
      let s' = skip_unpriced reason s in
      let noted = record_unsupported_option_intents a.option_order_intents s' in
      let s'' = if goes_on then s' else noted in
      let final =
        if not goes_on && not (is_empty s''.option_orders.skipped) && is_below_threshold reason
        then option_orders_skipped
        else reason in
      let ended = set_status status (some final) s'' in
      (if is_below_threshold final then ended else add_reason final ended, goes_on)
