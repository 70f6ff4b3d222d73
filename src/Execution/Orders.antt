-- ===== src/Execution/Orders.antt =====
-- application/execution_service.py, `execute_rebalance`: the loops that submit the sales and the
-- purchases of a cycle.
pub mod Spending
pub mod Agreement
use ibkrquant.Prelude.{
  Bool, true, false, ◌&&◌, ◌||◌, List, [], ◌∷◌, Option, none, some, Text, codes, Dict, text_eq,
  if◌then◌else◌,
}
use ibkrquant.Number.{Float, ◌⊕◌, ◌⊖◌, ◌⊗◌, ◌⊘◌, ◌≼◌, ◌≺◌, nought, max, min}
use ibkrquant.Execution.Types.{
  Side, Reason, missing_price, insufficient_buying_power, Intent, Report, Row, Buckets, Summary,
  Broker, ok,
}
use ibkrquant.Execution.Outcome.{Outcome, is_failed, record_order_outcome, append}
use ibkrquant.Execution.Sizing.{
  value_of, usable_price, limit_price_of, floor_order_quantity, planned_buy_order_quantity,
  projected_sell_release_value,
}
use ibkrquant.Execution.Plan.{Cycle, sell_quantity_of}
use ibkrquant.Execution.Run.{Action, pure, ◌>>=◌, ◌>>◌, update, submit_claimed_order}

-- The constants of a run that the submissions need.
pub record Desk (F S : Type 0) : Type 0 where
  pub broker : Broker F S
  pub dry_run_only : Bool
  pub order_account_id : Option Text

module _ {F : Type 0} where
  abbrev pub on_orders : (Buckets F → Buckets F) → Summary F → Summary F
  on_orders g s = record s { orders = g s.orders }

  -- `orders_skipped.append({"symbol", "side", "reason"})`
  abbrev pub skip_order : Text → Side → Text → Summary F → Summary F
  skip_order symbol side reason = on_orders λ b. record b {
    skipped = append b.skipped (record {
      symbol = symbol;
      action = some (elim side [ Side.buy ↦ codes "buy" | Side.sell ↦ codes "sell" ]);
      quantity = none;
      limit_price = none;
      reason = reason;
    });
  }

  abbrev pub add_reason : Reason F → Summary F → Summary F
  add_reason r s = record s { skipped_reasons = append s.skipped_reasons r }

  -- the payload of a simulated order
  abbrev pub dry_run_row : Text → Text → F → Option F → Row F
  dry_run_row symbol action quantity limit_price = record {
    symbol = symbol;
    action = action;
    quantity = quantity;
    limit_price = limit_price;
    status = codes "dry_run";
    broker_order_id = none;
  }

  abbrev pub add_submitted : Row F → Summary F → Summary F
  add_submitted row = on_orders λ b. record b { submitted = append b.submitted row }

  abbrev pub reported_row : Text → Text → F → Option F → Report F → Row F
  reported_row symbol action quantity limit_price report = record {
    symbol = symbol;
    action = action;
    quantity = quantity;
    limit_price = limit_price;
    status = report.status;
    broker_order_id = report.broker_order_id;
  }

  -- the summary of a run after a report, and its outcome
  unfoldable pub record_report : {S : Type 0} → Bool → Row F → Action F S Outcome
  record_report option_order row run =
      let (outcome, s) = record_order_outcome option_order row.status row run.summary in
      (ok outcome, record run { summary = s })

-- The variables of the loop over the sales.
pub record Sells (F : Type 0) : Type 0 where
  pub sell_executed : Bool
  pub projected_sell_release_value : F
  pub pending_sell_release_symbols : List Text
  pub dry_run_sale_proceeds : F

-- What a turn of the loop decides: `no_quantity` says whether the symbol is overweight.
pub data SellTurn (F : Type 0) : Type 0 where
  keep_position no_price : SellTurn F
  no_quantity : Bool → SellTurn F
  sell : (price quantity : F) → SellTurn F

-- What a turn of the loop over the purchases decides.
pub data BuyTurn (F : Type 0) : Type 0 where
  enough no_price below_minimum no_quantity no_money : BuyTurn F
  buy : (limit_price quantity : F) → BuyTurn F

module _ {F : Type 0} ⦃f : Float F⦄ (c : Cycle F) where
  abbrev pub is_overweight : Text → Bool
  is_overweight s = value_of s c.terms.target_mv ⊕ c.terms.threshold ≺ value_of s c.terms.current_mv

  abbrev pub is_haven : Text → Bool
  is_haven s = elim c.safe_haven_symbol [ none ↦ false | some h ↦ text_eq s h ]

  -- the tests of one turn of the loop over the sales
  unfoldable pub sell_turn : F → Text → SellTurn F
  unfolding sell_quantity_of usable_price
  sell_turn sweep symbol =
      let price? = usable_price symbol c.terms.prices in
      if is_haven symbol && nought ≺ sweep
      then elim price? [
        | none ↦ SellTurn.no_price
        | some price ↦
            let quantity = max (f.trunc sweep) (f.trunc (sell_quantity_of c symbol price)) in
            if quantity ≼ nought
            then SellTurn.no_quantity (is_overweight symbol)
            else sell price quantity
      ]
      else if is_overweight symbol
      then elim price? [
        | none ↦ SellTurn.no_price
        | some price ↦
            if sell_quantity_of c symbol price ≼ nought
            then SellTurn.no_quantity true
            else sell price (sell_quantity_of c symbol price)
      ]
      else keep_position

  -- the tests of one turn of the loop over the purchases, with `power` left to invest
  unfoldable pub buy_turn : F → Text → F → BuyTurn F
  unfolding usable_price limit_price_of planned_buy_order_quantity floor_order_quantity
  buy_turn power symbol target =
      let current = value_of symbol c.terms.current_mv in
      let buy_value = min (target ⊖ current) (power ⊗ f.lit 95 2) in
      if current ≺ target ⊖ c.terms.threshold
      then elim (usable_price symbol c.terms.prices) [
        | none ↦ BuyTurn.no_price
        | some price ↦
            let limit = limit_price_of c.terms symbol price in
            let planned = planned_buy_order_quantity buy_value limit c.terms.quantity_step in
            let quantity =
              if power ≺ planned ⊗ limit
              then floor_order_quantity (power ⊘ limit) c.terms.quantity_step
              else planned in
            if buy_value ≺ c.terms.minimum_order_notional
            then below_minimum
            else if planned ≼ nought
            then BuyTurn.no_quantity
            else if quantity ≼ nought || power ≺ quantity ⊗ limit
            then no_money
            else buy limit quantity
      ]
      else enough

module _ {F S : Type 0} ⦃f : Float F⦄ (desk : Desk F S) where
  abbrev pub market_sell : Text → F → Intent F
  market_sell symbol quantity = record {
    symbol = symbol;
    side = Side.sell;
    quantity = quantity;
    order_type = none;
    limit_price = none;
    time_in_force = none;
    account_id = desk.order_account_id;
    security_type = none;
  }

  abbrev pub limit_buy : Text → F → F → Intent F
  limit_buy symbol limit_price quantity = record {
    symbol = symbol;
    side = Side.buy;
    quantity = quantity;
    order_type = some (codes "limit");
    limit_price = some limit_price;
    time_in_force = some (codes "DAY");
    account_id = desk.order_account_id;
    security_type = none;
  }

  -- `projected_sell_release_value` and `sell_executed` after a report
  abbrev pub after_sell : F → F → Report F → Outcome → Sells F → Sells F
  after_sell price quantity report outcome v = if is_failed outcome then v else record v {
    sell_executed = true;
    projected_sell_release_value =
        v.projected_sell_release_value ⊕ projected_sell_release_value report price quantity;
  }

  unfoldable pub submit_sell : Text → F → F → Sells F → Action F S (Sells F)
  submit_sell symbol price quantity v = do
    report ← submit_claimed_order desk.broker (market_sell symbol quantity)
    outcome ← record_report false (reported_row symbol (codes "sell") quantity none report)
    pure (after_sell price quantity report outcome v)

  -- the rest of a turn, once it is decided
  unfoldable pub sell_act : Text → SellTurn F → Sells F → Action F S (Sells F)
  sell_act symbol keep_position v = pure v
  sell_act symbol SellTurn.no_price v = do
    update (skip_order symbol Side.sell (codes "missing_price"))
    update (add_reason (missing_price (symbol ∷ [])))
    pure v
  sell_act symbol (SellTurn.no_quantity overweight) v = do
    update (skip_order symbol Side.sell (codes "quantity_zero"))
    pure (
        if overweight
        then record v {
          pending_sell_release_symbols = append v.pending_sell_release_symbols symbol;
        }
        else v)
  sell_act symbol (sell price quantity) v =
      if desk.dry_run_only
      then (do
        update (add_submitted (dry_run_row symbol (codes "sell") quantity none))
        pure (record v { dry_run_sale_proceeds = v.dry_run_sale_proceeds ⊕ quantity ⊗ price }))
      else submit_sell symbol price quantity v

  -- the loop over the sales
  unfoldable pub sell_loop : Cycle F → F → List Text → Sells F → Action F S (Sells F)
  sell_loop c sweep [] v = pure v
  sell_loop c sweep (s ∷ ss) v = do v' ← sell_act s (sell_turn c sweep s) v; sell_loop c sweep ss v'

  -- what follows the report of a purchase: its outcome, and the power left
  unfoldable pub report_buy : Text → F → F → F → Report F → Action F S F
  report_buy symbol limit quantity power report = do
    outcome ← record_report false (reported_row symbol (codes "buy") quantity (some limit) report)
    pure (if is_failed outcome then power else power ⊖ quantity ⊗ limit)

  unfoldable pub submit_buy : Text → F → F → F → Action F S F
  submit_buy symbol limit quantity power = do
    report ← submit_claimed_order desk.broker (limit_buy symbol limit quantity)
    report_buy symbol limit quantity power report

  unfoldable pub buy_act : Text → BuyTurn F → F → Action F S F
  buy_act symbol enough power = pure power
  buy_act symbol BuyTurn.no_price power = do
    update (skip_order symbol Side.buy (codes "missing_price"))
    update (add_reason (missing_price (symbol ∷ [])))
    pure power
  buy_act symbol below_minimum power = do
    update (skip_order symbol Side.buy (codes "min_notional"))
    pure power
  buy_act symbol BuyTurn.no_quantity power = do
    update (skip_order symbol Side.buy (codes "quantity_zero"))
    pure power
  buy_act symbol no_money power = do
    update (skip_order symbol Side.buy (codes "insufficient_buying_power"))
    update (add_reason (insufficient_buying_power (symbol ∷ [])))
    pure power
  buy_act symbol (buy limit quantity) power =
      if desk.dry_run_only
      then (do
        update (add_submitted (dry_run_row symbol (codes "buy") quantity (some limit)))
        pure (power ⊖ quantity ⊗ limit))
      else submit_buy symbol limit quantity power

  -- the loop over the purchases, where no reason blocks them
  unfoldable pub buy_loop : Cycle F → Dict F → F → Action F S F
  buy_loop c [] power = pure power
  buy_loop c ((s, target) ∷ d) power = do
    power' ← buy_act s (buy_turn c power s target) power
    buy_loop c d power'
