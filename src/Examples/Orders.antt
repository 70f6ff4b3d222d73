-- ===== src/Examples/Orders.antt =====
-- application/execution_service.py: the theorems on the orders of a cycle, applied to concrete ones.
use ibkrquant.Prelude.{
  any, ◌≡◌, ◌≢◌, refl, true, false, [], ◌∷◌, none, some, codes, strip, text_eq, mem_text, lookup,
}
use mathlib.Core.Path.{subst}
use ibkrquant.Number.{◌≼◌, ◌≺◌, nought, max, min, is_zero}
use ibkrquant.Number.Fixed.{Fixed, fixed_float, dollars, Fixed-IsFloat}
use ibkrquant.Execution.Types.{Row}
use ibkrquant.Execution.Outcome.{Outcome, classify, record_order_outcome}
use ibkrquant.Execution.Sizing.{usable_price}
use ibkrquant.Execution.Plan.{plan_sells, no_scan, Cycle, sell_quantity_of}
use ibkrquant.Execution.Orders.{
  Desk, sell_turn, buy_turn, buy_loop, buy_act, submit_buy, report_buy, record_report,
}
use ibkrquant.Execution.Orders.Agreement.{is_sale, IsOrdered, plan_sells-agrees}
use ibkrquant.Execution.Orders.Spending.{Spends, buy_loop-Spends, buy_loop-nonneg}
use ibkrquant.Execution.Summaries.{start_summary}
use ibkrquant.Execution.Run.{◌>>=◌, pure, submit_claimed_order}
use ibkrquant.Examples.Samples.{voo, xlk, broker, claimed, fresh}

abbrev row : Row Fixed
row = record {
  symbol = voo;
  action = codes "sell";
  quantity = dollars 3;
  limit_price = none;
  status = codes " Submitted ";
  broker_order_id = some (codes "7");
}

pending-ne-filled : Outcome.pending ≢ Outcome.filled
pending-ne-filled e = cc

pending-ne-partially_filled : Outcome.pending ≢ Outcome.partially_filled
pending-ne-partially_filled e = cc

waits :
    (record_order_outcome false (codes " Submitted ") row (start_summary nought)).0
    ≡ Outcome.pending
unfolding record_order_outcome classify mem_text text_eq strip
waits = refl

-- 60 VOO at 100 dollars for a target of 2850, and no XLK for a target of 5700
abbrev cycle : Cycle Fixed
cycle = record {
  terms = record {
    threshold = dollars 200;
    quantity_step = dollars 1;
    minimum_order_notional = dollars 50;
    limit_buy_premium = fixed_float.lit 1005 3;
    premium_by_symbol = [];
    prices = (voo, dollars 100) ∷ (xlk, dollars 200) ∷ [];
    current_mv = (voo, dollars 6000) ∷ [];
    target_mv = (voo, dollars 2850) ∷ (xlk, dollars 5700) ∷ [];
  };
  all_symbols = voo ∷ xlk ∷ [];
  quantities = (voo, dollars 60) ∷ [];
  safe_haven_symbol = none;
  sweep_rule = λ _ _ _ _. false;
}

abbrev desk : Desk Fixed (Unit {0})
desk = record {
  broker = broker claimed [];
  dry_run_only = false;
  order_account_id = some (codes "U1");
}

buy_loop-Spends_example :
    Spends desk fresh
      (dollars 5000)
      (buy_loop desk cycle cycle.terms.target_mv (dollars 5000) fresh)
buy_loop-Spends_example = buy_loop-Spends desk refl cycle cycle.terms.target_mv (dollars 5000) fresh

-- 23 XLK at 201 dollars are bought out of 5000 dollars
buy_loop-nonneg_example : (dollars 377 ≺ nought) ≡ false
unfolding buy_loop buy_act ◌>>=◌ pure buy_turn lookup text_eq max min is_zero submit_buy report_buy
    record_report submit_claimed_order mem_text record_order_outcome strip
buy_loop-nonneg_example =
    buy_loop-nonneg ⦃laws = Fixed-IsFloat⦄ desk refl cycle cycle.terms.target_mv (dollars 5000)
      (dollars 377) fresh refl refl

voo-IsOrdered : IsOrdered cycle voo
unfolding lookup text_eq max min is_zero sell_quantity_of usable_price
voo-IsOrdered = record {
  market_value = refl;
  target_value = refl;
  quantity = λ price e.
      let same : dollars 100 ≡ price = cc in
      subst (λ p. (sell_quantity_of cycle voo p ≼ sell_quantity_of cycle voo p) ≡ true) same refl;
}

plan_sells-agrees_example :
    (plan_sells cycle (voo ∷ []) no_scan).found
    ≡ any (λ s. is_sale (sell_turn cycle nought s)) (voo ∷ [])
plan_sells-agrees_example =
    plan_sells-agrees cycle ⦃laws = Fixed-IsFloat⦄ (voo ∷ []) (voo-IsOrdered, tt)
