-- ===== src/Execution/Plan.antt =====
-- application/execution_service.py, `execute_rebalance`: the plan of a cycle, made before anything is
-- locked or submitted, and the reason given when there is nothing to do.
use ibkrquant.Prelude.{
  Bool, true, false, ◌&&◌, ◌||◌, not, List, [], ◌∷◌, ◌++◌, Option, none, some, Text, Dict, text_eq,
  keep, keys, is_empty, sorted, unique, if◌then◌else◌,
}
use ibkrquant.Number.{Float, ◌⊕◌, ◌⊖◌, ◌⊗◌, ◌≼◌, ◌≺◌, nought, max, min, abs}
use ibkrquant.Execution.Types.{
  Reason, target_diff_below_threshold, missing_price, insufficient_buying_power, min_notional,
  quantity_zero, Status,
}
use ibkrquant.Execution.Sizing.{
  Terms, value_of, usable_price, limit_price_of, sell_order_quantity, planned_buy_order_quantity,
}

-- `should_sell_cash_sweep_to_fund_whole_share_buy` of `quant_platform_kit.common.cash_sweep`:
-- the quantity, its price, the buying power, and the underweight values with their ask prices.
abbrev pub SweepRule : Type 0 → Type 0
SweepRule F = F → F → F → List (F × F) → Bool

-- What is fixed for a cycle once prices and targets are known. `all_symbols` is a Python set, in the
-- order in which it is iterated.
pub record Cycle (F : Type 0) : Type 0 where
  pub terms : Terms F
  pub all_symbols : List Text
  pub quantities : Dict F
  pub safe_haven_symbol : Option Text
  pub sweep_rule : SweepRule F

-- The lists that the planning loops fill, and the flag that they set.
pub record Scan : Type 0 where
  pub found : Bool
  pub missing_price_symbols : List Text
  pub insufficient_buying_power_symbols : List Text
  pub min_notional_symbols : List Text
  pub quantity_zero_symbols : List Text

abbrev pub no_scan : Scan
no_scan = record {
  found = false;
  missing_price_symbols = [];
  insufficient_buying_power_symbols = [];
  min_notional_symbols = [];
  quantity_zero_symbols = [];
}

-- How one turn of a planning loop ends.
pub data Turn : Type 0 where
  skip no_price no_money below_minimum no_quantity planned : Turn

abbrev pub note : Turn → Text → Scan → Scan
note skip s sc = sc
note no_price s sc = record sc { missing_price_symbols = sc.missing_price_symbols ++ s ∷ [] }
note no_money s sc = record sc {
  insufficient_buying_power_symbols = sc.insufficient_buying_power_symbols ++ s ∷ [];
}
note below_minimum s sc = record sc { min_notional_symbols = sc.min_notional_symbols ++ s ∷ [] }
note no_quantity s sc = record sc { quantity_zero_symbols = sc.quantity_zero_symbols ++ s ∷ [] }
note planned s sc = record sc { found = true }

abbrev pub is_planned : Turn → Bool
is_planned planned = true
is_planned _ = false

module _ {F : Type 0} ⦃f : Float F⦄ (c : Cycle F) where
  -- the quantity that a sale of the symbol at the price would take
  unfoldable pub sell_quantity_of : Text → F → F
  unfolding sell_order_quantity
  sell_quantity_of symbol price =
      sell_order_quantity (value_of symbol c.terms.current_mv) (value_of symbol c.terms.target_mv)
        price (value_of symbol c.quantities) c.terms.quantity_step

  -- one turn of the loop that looks for a sale
  unfoldable pub sell_plan_turn : Text → Turn
  unfolding sell_quantity_of usable_price
  sell_plan_turn symbol =
      if value_of symbol c.terms.current_mv ≼ value_of symbol c.terms.target_mv ⊕ c.terms.threshold
      then skip
      else elim (usable_price symbol c.terms.prices) [
        | none ↦ no_price
        | some price ↦ if nought ≺ sell_quantity_of symbol price then planned else no_quantity
      ]

  unfoldable pub plan_sells : List Text → Scan → Scan
  unfolding sell_plan_turn
  plan_sells [] sc = sc
  plan_sells (s ∷ ss) sc =
      let rest = plan_sells ss (note (sell_plan_turn s) s sc) in
      if is_planned (sell_plan_turn s) then note planned s sc else rest

  -- `funding_buy_candidates`, before the new-risk gate empties it
  unfoldable pub funding_buy_candidates : List Text
  unfolding abs
  funding_buy_candidates =
      keep
        (λ s.
          let gap = value_of s c.terms.target_mv ⊖ value_of s c.terms.current_mv in
          not (elim c.safe_haven_symbol [ none ↦ false | some h ↦ text_eq s h ])
          && c.terms.threshold ≺ gap
          && c.terms.minimum_order_notional ≺ abs gap)
        (keys c.terms.target_mv)

  -- the loop over the candidates of `cash_sweep_sale_quantity_to_fund_buy`
  unfoldable pub funding_needs : List Text → List (F × F)
  unfolding limit_price_of
  funding_needs [] = []
  funding_needs (s ∷ ss) =
      let underweight = value_of s c.terms.target_mv ⊖ value_of s c.terms.current_mv in
      let ask = value_of s c.terms.prices in
      let rest = funding_needs ss in
      if underweight ≼ c.terms.threshold
      then rest
      else if ask ≼ nought
      then rest
      else (underweight, limit_price_of c.terms s ask) ∷ rest

  -- `cash_sweep_sale_quantity_to_fund_buy`, given the sweep's price
  unfoldable pub cash_sweep_sale_quantity : F → F → F → List Text → F
  unfolding funding_needs
  cash_sweep_sale_quantity investable sweep_price max_quantity candidates =
      if max_quantity ≼ nought || sweep_price ≼ nought
      then nought
      else if c.sweep_rule max_quantity sweep_price (max nought investable)
          (funding_needs candidates)
      then max_quantity
      else nought

  -- `cash_sweep_quantity` after the sell plan: the haven is sold only where no sale is planned
  unfoldable pub plan_sweep : Bool → Bool → F → F
  unfolding cash_sweep_sale_quantity funding_buy_candidates
  plan_sweep has_sell_plan buy_blocked investable =
      let candidates = if buy_blocked then [] else funding_buy_candidates in
      elim c.safe_haven_symbol [
        | none ↦ nought
        | some haven ↦
            let price = value_of haven c.terms.prices in
            let held = value_of haven c.quantities in
            if not has_sell_plan && not (is_empty candidates) && nought ≺ price && nought ≺ held
            then cash_sweep_sale_quantity investable price (f.trunc held) candidates
            else nought
      ]

  -- one turn of the loop that looks for a purchase
  unfoldable pub buy_plan_turn : F → Text → F → Turn
  unfolding usable_price limit_price_of planned_buy_order_quantity
  buy_plan_turn investable symbol target =
      let current = value_of symbol c.terms.current_mv in
      let buy_value = min (target ⊖ current) (investable ⊗ f.lit 95 2) in
      if target ⊖ c.terms.threshold ≼ current
      then skip
      else elim (usable_price symbol c.terms.prices) [
        | none ↦ no_price
        | some price ↦
            if buy_value ≼ nought
            then no_money
            else if buy_value ≺ c.terms.minimum_order_notional
            then below_minimum
            else if nought
                ≺ planned_buy_order_quantity buy_value (limit_price_of c.terms symbol price)
                    c.terms.quantity_step
            then planned
            else no_quantity
      ]

  unfoldable pub plan_buys : F → Dict F → Scan → Scan
  unfolding buy_plan_turn
  plan_buys investable [] sc = sc
  plan_buys investable ((s, target) ∷ d) sc =
      let rest = plan_buys investable d (note (buy_plan_turn investable s target) s sc) in
      if is_planned (buy_plan_turn investable s target) then note planned s sc else rest

-- The reason and the status of a cycle in which neither loop found an order.
unfoldable pub nothing_planned : {F : Type 0} → Scan → Reason F × Status
nothing_planned sc =
    if not (is_empty sc.missing_price_symbols)
    then (missing_price (sorted (unique sc.missing_price_symbols)), Status.blocked)
    else if not (is_empty sc.insufficient_buying_power_symbols)
    then (
      insufficient_buying_power (sorted (unique sc.insufficient_buying_power_symbols)),
      Status.blocked,
    )
    else if not (is_empty sc.min_notional_symbols)
    then (min_notional (sorted (unique sc.min_notional_symbols)), Status.no_op)
    else if not (is_empty sc.quantity_zero_symbols)
    then (quantity_zero (sorted (unique sc.quantity_zero_symbols)), Status.no_op)
    else (target_diff_below_threshold, Status.no_op)
