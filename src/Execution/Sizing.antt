-- ===== src/Execution/Sizing.antt =====
-- application/execution_service.py: how many shares an order takes, and what it may cost.
pub mod Bounds
use ibkrquant.Prelude.{
  ℕ, Bool, true, false, ◌||◌, ◌&&◌, not, List, [], ◌∷◌, Option, none, some, Text, codes, normalize,
  mem_text, text_eq, Dict, lookup, get_or, is_empty, if◌then◌else◌,
}
use ibkrquant.Number.{Float, ◌⊕◌, ◌⊖◌, ◌⊗◌, ◌⊘◌, ◌≼◌, ◌≺◌, nought, max, min, is_zero}
use ibkrquant.Execution.Types.{Error, zero_division, Result, ok, raise, Report}

-- The settings of a cycle that the sizes depend on.
pub record Terms (F : Type 0) : Type 0 where
  pub threshold : F
  pub quantity_step : F
  pub minimum_order_notional : F
  pub limit_buy_premium : F
  pub premium_by_symbol : Dict F
  pub prices : Dict F
  pub current_mv : Dict F
  pub target_mv : Dict F

module _ {F : Type 0} ⦃f : Float F⦄ where
  -- `_floor_order_quantity`
  unfoldable pub floor_order_quantity : F → F → F
  floor_order_quantity quantity step = f.floor_step quantity step

  -- `_investable_buying_power`
  unfoldable pub investable_buying_power : F → F → F
  investable_buying_power buying_power reserved = max nought (buying_power ⊖ max nought reserved)

  -- `_limit_buy_premium_for_symbol`, on the premiums that are numbers
  unfoldable pub limit_buy_premium_for_symbol : Text → F → Dict F → F
  limit_buy_premium_for_symbol symbol default premiums = elim (lookup (normalize symbol) premiums) [
    | none ↦ default
    | some premium ↦ if nought ≺ premium then premium else default
  ]

  -- `_limit_buy_price`
  unfoldable pub limit_buy_price : Text → F → F → Dict F → F
  unfolding limit_buy_premium_for_symbol
  limit_buy_price symbol price default premiums =
      f.round (price ⊗ limit_buy_premium_for_symbol symbol default premiums) 2

  -- `_sell_order_quantity`
  unfoldable pub sell_order_quantity : F → F → F → F → F → F
  unfolding floor_order_quantity
  sell_order_quantity current_value target_value price position_quantity step =
      let held = max nought position_quantity in
      let target = max nought target_value in
      let sell_value = max nought (current_value ⊖ target) in
      if held ≼ nought
      then nought
      else if target ≼ nought
      then floor_order_quantity held step
      else if sell_value ≼ nought || price ≼ nought
      then nought
      else floor_order_quantity (min (sell_value ⊘ price) held) step

  -- `_planned_buy_order_quantity`, whose second result is always `False`
  unfoldable pub planned_buy_order_quantity : F → F → F → F
  unfolding floor_order_quantity
  planned_buy_order_quantity buy_value limit_price step =
      let effective = max nought limit_price in
      if nought ≺ effective then floor_order_quantity (buy_value ⊘ effective) step else nought

  -- `_projected_sell_release_value_for_report`
  unfoldable pub projected_sell_release_value : Report F → F → F → F
  projected_sell_release_value report fallback_price fallback_quantity =
      let is_filled = text_eq report.status (codes "Filled") in
      let stated = if is_zero report.quantity then fallback_quantity else report.quantity in
      let filled =
        if is_filled && report.filled_quantity ≼ nought then stated else report.filled_quantity in
      let price =
        if report.average_fill_price ≼ nought
        then max nought fallback_price
        else report.average_fill_price in
      if not
        (mem_text report.status (codes "Filled" ∷ codes "PartiallyFilled" ∷ codes "Partial" ∷ []))
      then nought
      else if filled ≼ nought
      then nought
      else if price ≼ nought
      then nought
      else filled ⊗ price

  abbrev pub value_of : Text → Dict F → F
  value_of symbol d = get_or (lookup symbol d) nought

  -- `prices.get(symbol)`, where a missing price and a zero are both false
  unfoldable pub usable_price : Text → Dict F → Option F
  usable_price symbol prices = elim (lookup symbol prices) [
    | none ↦ none
    | some p ↦ if is_zero p then none else some p
  ]

  unfoldable pub limit_price_of : Terms F → Text → F → F
  unfolding limit_buy_price
  limit_price_of t symbol price =
      limit_buy_price symbol price t.limit_buy_premium t.premium_by_symbol

  -- the cost that one symbol adds in `_estimated_buy_order_cost`; a division by zero raises
  symbol_cost : Terms F → F → Text → Result F
  unfolding usable_price limit_price_of floor_order_quantity
  symbol_cost t investable symbol =
      let current = value_of symbol t.current_mv in
      let target = value_of symbol t.target_mv in
      let buy_value = min (target ⊖ current) investable in
      if target ⊖ t.threshold ≼ current then ok nought else elim (usable_price symbol t.prices) [
        | none ↦ ok nought
        | some price ↦
            let limit = limit_price_of t symbol price in
            let quantity = floor_order_quantity (buy_value ⊘ limit) t.quantity_step in
            if buy_value ≺ t.minimum_order_notional
            then ok nought
            else if is_zero limit
            then raise zero_division
            else if quantity ≼ nought
            then ok nought
            else ok (quantity ⊗ limit)
      ]

  -- `_estimated_buy_order_cost`
  unfoldable pub estimated_buy_order_cost : Terms F → F → List Text → F → Result F
  unfolding symbol_cost
  estimated_buy_order_cost t investable [] total = ok total
  estimated_buy_order_cost t investable (s ∷ ss) total = elim (symbol_cost t investable s) [
    | ok cost ↦ estimated_buy_order_cost t investable ss (total ⊕ cost)
    | raise e ↦ raise e
  ]

  -- `_rotation_guard_should_block_buys`
  unfoldable pub rotation_guard_should_block_buys :
      Terms F → F → List Text → List Text → Result Bool
  unfolding estimated_buy_order_cost
  rotation_guard_should_block_buys t investable pending_sells buys =
      if is_empty pending_sells || is_empty buys
      then ok false
      else elim (estimated_buy_order_cost t investable buys nought) [
        | ok cost ↦ ok (investable ≺ cost)
        | raise e ↦ raise e
      ]
