-- ===== src/Execution/Sizing/Bounds.antt =====
-- application/execution_service.py: bounds on the sizes of the orders and on the buying power.
use ibkrquant.Prelude.{◌≡◌, Bool, true, false, List, Option, none, some, Text, arith}
use ibkrquant.Number.{Float, IsFloat, ◌⊖◌, ◌⊘◌, ◌≼◌, ◌≺◌, nought, max, min}
use ibkrquant.Execution.Types.{AccountValue}
use ibkrquant.Execution.Sizing.{floor_order_quantity, sell_order_quantity}
use ibkrquant.Execution.Accounts.{
  get_available_buying_power, floor_at_zero, available_funds_for_currency, cash_value_for_currency,
  normalize_account_ids,
}

module _ {F : Type 0} ⦃f : Float F⦄ ⦃laws : IsFloat F⦄ where
  pub max-nonneg : (x : F) → (max nought x ≺ nought) ≡ false
  unfolding max
  max-nonneg x = ground (arith, laws.lt_irrefl nought, laws.lt_asymm nought x)

  max-number : (x : F) → (x ≼ x) ≡ true → (max nought x ≼ max nought x) ≡ true
  unfolding max
  max-number x h = ground (arith, laws.zero_refl)

  min-le : (a b : F) → (a ≼ a) ≡ true → (b ≼ b) ≡ true → (min a b ≼ b) ≡ true
  unfolding min
  min-le a b ha hb = ground (arith, laws.lt-eq-not-le b a)

  min-number : (a b : F) → (a ≼ a) ≡ true → (b ≼ b) ≡ true → (min a b ≼ min a b) ≡ true
  unfolding min
  min-number a b ha hb = ground arith

  nought-le : (x : F) → (x ≼ x) ≡ true → (nought ≼ max nought x) ≡ true
  unfolding max
  nought-le x h = ground (arith, laws.zero_refl, laws.lt-le nought x)

  floor-le :
      (a b step : F)
      → (a ≼ a) ≡ true
      → (a ≼ b) ≡ true
      → (nought ≺ step) ≡ true
      → (floor_order_quantity a step ≼ b) ≡ true
  unfolding floor_order_quantity
  floor-le a b step ha hab hs = laws.le_trans _ a b (laws.floor_step-le a step ha hs) hab

  -- Under the laws of IsFloat, a sale takes no more shares than are held, when the quantity held and the quotient of the excess
  -- value and the price are numbers and the quantity step is positive.
  pub sell_order_quantity-le :
      (current_value target_value price position_quantity step : F)
      → (position_quantity ≼ position_quantity) ≡ true
      → (max nought (current_value ⊖ max nought target_value) ⊘ price
          ≼ max nought (current_value ⊖ max nought target_value) ⊘ price)
        ≡ true
      → (nought ≺ step) ≡ true
      → (sell_order_quantity current_value target_value price position_quantity step
          ≼ max nought position_quantity)
        ≡ true
  unfolding sell_order_quantity
  sell_order_quantity-le cv tv price pq step hp hq hs =
      let held = max-number pq hp in
      let whole = floor-le (max nought pq) (max nought pq) step held held hs in
      let part =
        floor-le (min (max nought (cv ⊖ max nought tv) ⊘ price) (max nought pq)) (max nought pq)
          step (min-number _ _ hq held) (min-le _ _ hq held) hs in
      let none_held = nought-le pq hp in ground arith

  floored :
      (shown : Option F) (parse : Text → Option F) (fallback : F)
      → (floor_at_zero parse shown fallback ≺ nought) ≡ false
  floored none parse fallback = max-nonneg fallback
  floored (some v) parse fallback = max-nonneg v

  -- Under the laws of IsFloat, the buying power that a run reads is never negative: neither with nor without cash-only execution,
  -- whichever account values are shown or missing.
  pub get_available_buying_power-nonneg :
      (parse : Text → Option F) (avs : List AccountValue) (fallback : F) (ids : List Text)
      (currency : Text) (cash_only : Bool)
      → (get_available_buying_power parse avs fallback ids currency cash_only ≺ nought) ≡ false
  unfolding get_available_buying_power
  get_available_buying_power-nonneg parse avs fallback ids currency true =
      floored (cash_value_for_currency parse avs currency (normalize_account_ids ids)) parse
        fallback
  get_available_buying_power-nonneg parse avs fallback ids currency false =
      floored (available_funds_for_currency parse avs currency (normalize_account_ids ids)) parse
        fallback
