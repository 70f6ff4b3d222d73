-- ===== src/Service/Signal.antt =====
-- application/rebalance_service.py: what a strategy's signal and a portfolio snapshot are turned into.
use ibkrquant.Prelude.{
  ℕ, Bool, true, false, ◌&&◌, ◌||◌, not, List, [], ◌∷◌, Option, none, some, Text, codes, strip,
  lower, normalize, mem_text, starts_with, is_blank_text, is_empty, keep, map, get_or, ◌==◌, Dict,
  insert, if◌then◌else◌,
}
use ibkrquant.Number.{Float, ◌⊕◌, ◌⊗◌, nought, sum_from}
use ibkrquant.Execution.Types.{
  missing_allocation, target_mode_not_weight, Result, ok, raise, Buckets, Summary, Status,
}
use ibkrquant.Execution.Targets.{Allocation, normalize_keys}
use ibkrquant.Execution.Options.{OptionIntent}
use ibkrquant.Execution.Rebalance.{Position}

-- What `compute_signals` returns. `has_targets` is the test of `target_weights`, and the fields after
-- it come from `signal_metadata`, where a blank text or an empty list stands for a missing one.
pub record Signal (F : Type 0) : Type 0 where
  pub has_targets : Bool
  pub allocation : Option (Allocation F)
  pub managed_symbols : List Text
  pub strategy_profile : Text
  pub trade_date : Text
  pub effective_date : Text
  pub snapshot_date : Option Text
  pub execution_timing_contract : Text
  pub dry_run_only : Bool
  pub no_op_reason : Text
  pub fail_reason : Text
  pub snapshot_guard_decision : Text
  -- `notification_context.status.code`
  pub status_code : Text
  pub actionable : Bool
  pub risk_flags : List Text
  pub option_order_intents : List (OptionIntent F)
  pub small_account_warning : Bool
  pub price_fallbacks : Dict F

-- the first of two texts, unless it is blank
abbrev pub or_text : Text → Text → Text
or_text s t = if is_blank_text s then t else s

-- the first of two lists, unless it is empty
abbrev or_list : {A : Type 0} → List A → List A → List A
or_list xs ys = if is_empty xs then ys else xs

module _ {F : Type 0} where
  abbrev no_allocation : Allocation F
  no_allocation = record {
    is_weight = true;
    strategy_symbols = [];
    risk_symbols = [];
    income_symbols = [];
    safe_haven_symbols = [];
    targets = [];
  }

  -- `_resolve_weight_allocation`, of the service
  unfoldable pub resolve_cycle_allocation : Option (Allocation F) → Bool → Result (Allocation F)
  resolve_cycle_allocation none required =
      if required then raise missing_allocation else ok no_allocation
  resolve_cycle_allocation (some a) required =
      if not a.is_weight
      then raise target_mode_not_weight
      else ok (record a { targets = normalize_keys [] a.targets })

  -- `strategy_symbols`
  unfoldable pub cycle_symbols : Signal F → Allocation F → List Text
  cycle_symbols sig alloc = or_list alloc.strategy_symbols sig.managed_symbols

-- A position of the portfolio snapshot.
pub record Holding (F : Type 0) : Type 0 where
  pub symbol : Text
  pub quantity : F
  pub average_cost : Option F

-- What the service reads of a portfolio snapshot.
pub record Snapshot (F : Type 0) : Type 0 where
  pub positions : List (Holding F)
  pub total_equity : Option F
  pub buying_power : Option F
  -- `metadata["account_ids"]`
  pub account_ids : List Text

-- `positions` and the numbers of `account_values`
pub record View (F : Type 0) : Type 0 where
  pub positions : Dict (Position F)
  pub equity : F
  pub buying_power : F

-- the symbols that `_strategy_portfolio_view` keeps
abbrev managed : List Text → List Text
managed symbols = map normalize (keep (λ s. not (is_blank_text (strip s))) symbols)

module _ {F : Type 0} ⦃f : Float F⦄ where
  unfoldable pub positions_of : Dict (Position F) → List (Holding F) → Dict (Position F)
  positions_of acc [] = acc
  positions_of acc (h ∷ hs) =
      positions_of
        (insert (normalize h.symbol)
          (record { quantity = h.quantity; avg_cost = get_or h.average_cost nought }) acc)
        hs

  -- `_snapshot_to_portfolio_view`
  unfoldable pub snapshot_to_portfolio_view : Snapshot F → View F
  unfolding positions_of
  snapshot_to_portfolio_view s = record {
    positions = positions_of [] s.positions;
    equity = get_or s.total_equity nought;
    buying_power = get_or s.buying_power nought;
  }

  abbrev kept_positions : List Text → Dict (Position F) → Dict (Position F)
  kept_positions symbols = keep (λ e. mem_text (normalize e.0) (managed symbols))

  -- `_strategy_portfolio_view`
  unfoldable pub strategy_portfolio_view : View F → List Text → View F
  strategy_portfolio_view v symbols = if is_empty (managed symbols) then v else record {
    positions = kept_positions symbols v.positions;
    equity =
        v.buying_power
        ⊕ sum_from nought
            (map (λ e. e.1.quantity ⊗ e.1.avg_cost) (kept_positions symbols v.positions));
    buying_power = v.buying_power;
  }

-- `execution_status in {"blocked", "error", "failed", "failure"}`
abbrev pub is_execution_blocked : Status → Bool
is_execution_blocked Status.blocked = true
is_execution_blocked _ = false

abbrev is_executed : Status → Bool
is_executed Status.executed = true
is_executed _ = false

module _ {F : Type 0} where
  -- `_should_suppress_noop_notification`
  unfoldable pub should_suppress_noop_notification : Signal F → ℕ → Bool → Bool → Bool
  should_suppress_noop_notification sig order_count has_error notify_no_trade_cycles =
      (order_count == 0 && not has_error && not notify_no_trade_cycles)
      || (starts_with (strip sig.no_op_reason) (codes "outside_execution_window")
          || starts_with (strip sig.no_op_reason) (codes "outside_monthly_execution_window"))
      || mem_text (strip sig.status_code) (
          codes "status_monthly_snapshot_waiting_window"
          ∷ codes "status_no_execution_window_after_snapshot"
          ∷ [])
      || (order_count == 0 && not has_error && not sig.actionable && is_empty sig.risk_flags)

  abbrev has_accepted : Buckets F → Bool
  has_accepted b =
      not (is_empty b.submitted)
      || not (is_empty b.pending)
      || not (is_empty b.filled)
      || not (is_empty b.partially_filled)

  -- `_has_order_activity`, with the execution summary that the function returned
  unfoldable pub has_order_activity : Summary F → Bool
  has_order_activity s = has_accepted s.orders || has_accepted s.option_orders

  -- `_should_record_execution_marker`; the summary has an `execution_status` and neither of
  -- `action_done` and `orders_previewed_count`.
  unfoldable pub should_record_execution_marker : Bool → Summary F → Bool
  unfolding has_order_activity
  should_record_execution_marker dedup_enabled s =
      dedup_enabled
      && not (is_execution_blocked s.execution_status)
      && (is_executed s.execution_status || has_order_activity s)

-- `_normalize_reconciliation_mode`
unfoldable pub normalize_reconciliation_mode : Text → Text → Text
normalize_reconciliation_mode value fallback =
    let normalized = map (λ c. if c == b'-' then b'_' else c) (lower (strip value)) in
    if mem_text normalized (codes "dry_run" ∷ codes "paper" ∷ codes "live" ∷ [])
    then normalized
    else fallback

-- `_resolve_reconciliation_mode`, on the modes of the execution summary and of the configuration
unfoldable pub resolve_reconciliation_mode : Bool → Text → Text → Text
unfolding normalize_reconciliation_mode
resolve_reconciliation_mode dry_run_only summary_mode config_mode =
    if dry_run_only
    then codes "dry_run"
    else or_text (normalize_reconciliation_mode summary_mode [])
        (normalize_reconciliation_mode config_mode (codes "paper"))
