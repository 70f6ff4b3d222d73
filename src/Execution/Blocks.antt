-- ===== src/Execution/Blocks.antt =====
-- application/execution_service.py, `execute_rebalance`: the buying power after the sales, and the
-- reasons that block the purchases.
use ibkrquant.Prelude.{
  Bool, false, ◌&&◌, not, List, [], Option, none, some, Text, is_empty, keep, keys, if◌then◌else◌,
}
use ibkrquant.Number.{Float, ◌⊕◌, ◌⊖◌, ◌≺◌, nought, max}
use ibkrquant.Execution.Types.{
  Reason, small_account_below_recommended_equity, account_new_risk_gate, pending_sell_release,
  negative_cash,
}
use ibkrquant.Execution.Accounts.{
  normalize_account_ids, cash_value_for_currency, get_available_buying_power,
}
use ibkrquant.Execution.Sizing.{value_of, rotation_guard_should_block_buys}
use ibkrquant.Execution.Run.{Action, pure, ◌>>=◌, ◌>>◌, lift, gets, update, on_session}
use ibkrquant.Execution.Orders.{Desk, Sells, add_reason}
use ibkrquant.Execution.Rebalance.{Args, Kit, Setup}

module _ {F : Type 0} ⦃f : Float F⦄ where
  -- `buy_needed_symbols`
  abbrev pub buy_needed_symbols : Setup F → List Text
  buy_needed_symbols u =
      keep
        (λ s.
          value_of s u.cycle.terms.current_mv
          ≺ value_of s u.cycle.terms.target_mv ⊖ u.cycle.terms.threshold)
        (keys u.cycle.terms.target_mv)

  abbrev pub prohibited : Kit F → Bool
  prohibited kit = elim kit.new_risk [ none ↦ false | some (p, codes) ↦ p ]

  abbrev gate_codes : Kit F → List Text
  gate_codes kit = elim kit.new_risk [ none ↦ [] | some (p, codes) ↦ codes ]

  abbrev pub needs_buys : Setup F → Bool
  needs_buys u = not (is_empty (buy_needed_symbols u))

module _ {F S : Type 0} ⦃f : Float F⦄ (a : Args F) (kit : Kit F) (desk : Desk F S) where
  abbrev pub power_now : Action F S F
  power_now = gets λ run.
      get_available_buying_power kit.parse (desk.broker.account_values run.world.session)
        a.buying_power (normalize_account_ids a.account_ids) a.market_currency a.cash_only_execution

  -- `buying_power` after the loop over the sales
  unfoldable pub power_after_sales : F → Sells F → Action F S F
  power_after_sales anticipated v =
      if a.dry_run_only
      then pure (max nought (anticipated ⊕ v.dry_run_sale_proceeds))
      else if v.sell_executed
      then (do
        on_session desk.broker.settle
        power ← power_now
        pure (
            if a.cash_only_execution && nought ≺ v.projected_sell_release_value
            then max power (anticipated ⊕ v.projected_sell_release_value)
            else power))
      else pure anticipated

  -- the first two reasons that block the purchases
  unfoldable pub early_block : Setup F → Action F S (Option (Reason F))
  early_block u =
      if a.small_account_warning && needs_buys u
      then (do
        update λ s. add_reason small_account_below_recommended_equity (record s {
          small_account_buy_block_reason = some small_account_below_recommended_equity;
        })
        pure (some small_account_below_recommended_equity))
      else if prohibited kit && needs_buys u
      then (do
        update λ s. add_reason account_new_risk_gate (record s {
          account_new_risk_block_reason = some account_new_risk_gate;
          account_new_risk_reason_codes = gate_codes kit;
        })
        pure (some account_new_risk_gate))
      else pure none

  -- the rotation guard
  unfoldable pub rotation_block : Setup F → F → List Text → Action F S (Option (Reason F))
  rotation_block u investable releases =
      if a.cash_only_execution && not (is_empty releases) && needs_buys u
      then (do
        blocks ← lift (
            rotation_guard_should_block_buys u.cycle.terms investable releases
              (buy_needed_symbols u))
        (if blocks
            then (do
              update λ s.
                  add_reason (pending_sell_release releases)
                    (record s { pending_sell_release_symbols = releases })
              pure (some (pending_sell_release releases)))
            else pure none))
      else pure none

  unfoldable pub raw_cash : Action F S (Option F)
  raw_cash = gets λ run.
      cash_value_for_currency kit.parse (desk.broker.account_values run.world.session)
        a.market_currency (normalize_account_ids a.account_ids)

  -- an overdrawn account, by its cash
  unfoldable pub overdrawn : Setup F → Option F → Action F S (Option (Reason F))
  overdrawn u none = pure none
  overdrawn u (some v) =
      if v ≺ nought && needs_buys u
      then (do update (add_reason (negative_cash v)); pure (some (negative_cash v)))
      else pure none

  unfoldable pub cash_block : Setup F → Action F S (Option (Reason F))
  cash_block u = if a.cash_only_execution then (do cash ← raw_cash; overdrawn u cash) else pure none

  unfoldable pub or_else :
      Option (Reason F) → Action F S (Option (Reason F)) → Action F S (Option (Reason F))
  or_else none m = m
  or_else (some r) m = pure (some r)

  -- `buys_blocked_reason`
  unfoldable pub block_buys : Setup F → F → List Text → Action F S (Option (Reason F))
  block_buys u investable releases = do
    first ← early_block u
    second ← or_else first (rotation_block u investable releases)
    or_else second (cash_block u)
