-- ===== src/Execution/Orders/Agreement.antt =====
-- application/execution_service.py, `execute_rebalance`: the plan made before the lock is taken against
-- the sales submitted after it.
use ibkrquant.Prelude.{
  ◌≡◌, refl, sym, ap, ◌∙◌, Bool, true, false, ◌||◌, List, [], ◌∷◌, some, Text, All, any,
  if◌then◌else◌, arith, Option-cases, inl, inr,
}
use ibkrquant.Number.{Float, IsFloat, ◌⊕◌, ◌≼◌, nought}
use ibkrquant.Execution.Sizing.{value_of, usable_price}
use ibkrquant.Execution.Plan.{
  Cycle, Scan, Turn, skip, no_money, below_minimum, planned, note, no_scan, is_planned,
  sell_quantity_of, sell_plan_turn, plan_sells,
}
use ibkrquant.Execution.Orders.{SellTurn, sell, sell_turn}

abbrev pub is_sale : {F : Type 0} → SellTurn F → Bool
is_sale (sell price quantity) = true
is_sale _ = false

module _ {F : Type 0} ⦃f : Float F⦄ (c : Cycle F) where
  -- one symbol in the loop over the sales, and in the plan
  sell_turn-agrees :
      ⦃laws : IsFloat F⦄ (symbol : Text)
      → (value_of symbol c.terms.current_mv ≼ value_of symbol c.terms.current_mv) ≡ true
      → (value_of symbol c.terms.target_mv ⊕ c.terms.threshold
          ≼ value_of symbol c.terms.target_mv ⊕ c.terms.threshold)
        ≡ true
      → ((price : F)
          → usable_price symbol c.terms.prices ≡ some price
          → (sell_quantity_of c symbol price ≼ sell_quantity_of c symbol price) ≡ true)
      → is_sale (sell_turn c nought symbol) ≡ is_planned (sell_plan_turn c symbol)
  unfolding sell_turn sell_plan_turn
  sell_turn-agrees ⦃laws = laws⦄ symbol hc ht hq =
      elim (Option-cases (usable_price symbol c.terms.prices)) [
        | inl missing ↦ ground (
          arith,
          missing,
          laws.lt_irrefl nought,
          laws.lt-eq-not-le (value_of symbol c.terms.target_mv ⊕ c.terms.threshold)
              (value_of symbol c.terms.current_mv),
        )
        | inr priced ↦ ground (
          arith,
          priced.1,
          hq priced.0 priced.1,
          laws.zero_refl,
          laws.lt_irrefl nought,
          laws.lt-eq-not-le (value_of symbol c.terms.target_mv ⊕ c.terms.threshold)
              (value_of symbol c.terms.current_mv),
          laws.lt-eq-not-le nought (sell_quantity_of c symbol priced.0),
        )
      ]

  -- The numbers that decide a sale are not NaN: the market value, the sum of the target and the
  -- threshold, and the quantity to sell at the price there is.
  pub record IsOrdered (symbol : Text) : Type 0 where
    pub market_value :
        (value_of symbol c.terms.current_mv ≼ value_of symbol c.terms.current_mv) ≡ true
    pub target_value :
        (value_of symbol c.terms.target_mv ⊕ c.terms.threshold
          ≼ value_of symbol c.terms.target_mv ⊕ c.terms.threshold)
        ≡ true
    pub quantity :
        (price : F)
        → usable_price symbol c.terms.prices ≡ some price
        → (sell_quantity_of c symbol price ≼ sell_quantity_of c symbol price) ≡ true

  or_true : (b d : Bool) → true ≡ (b || (true || d))
  or_true true d = refl
  or_true false d = refl

  or_false : (b : Bool) → b ≡ (b || false)
  or_false true = refl
  or_false false = refl

  turn-found :
      (t : Turn) (symbol : Text) (sc : Scan) (rest : Scan → Scan) (later : Bool)
      → ((sc' : Scan) → (rest sc').found ≡ (sc'.found || later))
      → (if is_planned t then note planned symbol sc else rest (note t symbol sc)).found
        ≡ (sc.found || (is_planned t || later))
  turn-found planned symbol sc rest later h = or_true sc.found later
  turn-found skip symbol sc rest later h = h sc
  turn-found Turn.no_price symbol sc rest later h = h (note Turn.no_price symbol sc)
  turn-found no_money symbol sc rest later h = h (note no_money symbol sc)
  turn-found below_minimum symbol sc rest later h = h (note below_minimum symbol sc)
  turn-found Turn.no_quantity symbol sc rest later h = h (note Turn.no_quantity symbol sc)

  plan_sells-found :
      ⦃laws : IsFloat F⦄ (ss : List Text) (sc : Scan)
      → All IsOrdered ss
      → (plan_sells c ss sc).found ≡ (sc.found || any (λ s. is_sale (sell_turn c nought s)) ss)
  unfolding plan_sells
  plan_sells-found [] sc h = or_false sc.found
  plan_sells-found (s ∷ ss) sc h =
      turn-found (sell_plan_turn c s) s sc (plan_sells c ss)
        (any (λ t. is_sale (sell_turn c nought t)) ss) (λ sc'. plan_sells-found ss sc' h.1)
      ∙ ap (λ b. sc.found || (b || any (λ t. is_sale (sell_turn c nought t)) ss))
          (sym (sell_turn-agrees s h.0.market_value h.0.target_value h.0.quantity))

  -- Under the laws of IsFloat, for symbols whose numbers are not NaN, the plan, which stops at the first sale,
  -- finds one exactly if some turn of the loop over the sales of these symbols sells, where no haven is
  -- sold to fund purchases.
  pub plan_sells-agrees :
      ⦃laws : IsFloat F⦄ (ss : List Text)
      → All IsOrdered ss
      → (plan_sells c ss no_scan).found ≡ any (λ s. is_sale (sell_turn c nought s)) ss
  plan_sells-agrees ss h = plan_sells-found ss no_scan h
