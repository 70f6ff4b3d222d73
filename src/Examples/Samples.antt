-- ===== src/Examples/Samples.antt =====
-- A small account on which the execution runs: a position in VOO to be reduced, and one in XLK to be
-- built, with BOXX as the safe haven.
use ibkrquant.Prelude.{Bool, true, false, List, [], ◌∷◌, Option, none, some, Text, codes}
use ibkrquant.Number.Fixed.{Fixed, fixed_float, dollars}
use ibkrquant.Execution.Types.{Result, Intent, Report, ok, Broker, OpenOrder}
use ibkrquant.Execution.Run.{Run}
use ibkrquant.Execution.Rebalance.{Args, Kit}
use ibkrquant.Execution.Summaries.{start_summary}

abbrev pub voo : Text
voo = codes "VOO"

abbrev pub xlk : Text
xlk = codes "XLK"

abbrev pub percent : Prim.Native.Nat.ℕ → Fixed
percent n = fixed_float.lit n 2

abbrev pub args : Bool → Args Fixed
args dry = record {
  positions = (voo, record { quantity = dollars 60; avg_cost = dollars 90 }) ∷ [];
  equity = dollars 10_000;
  buying_power = dollars 4000;
  allocation = some (record {
    is_weight = true;
    strategy_symbols = voo ∷ xlk ∷ [];
    risk_symbols = voo ∷ xlk ∷ [];
    income_symbols = [];
    safe_haven_symbols = codes "BOXX" ∷ [];
    targets = (codes "voo", percent 30) ∷ (xlk, percent 60) ∷ [];
  });
  option_order_intents = [];
  trade_date = some (codes "2026-03-26");
  snapshot_date = none;
  small_account_warning = false;
  price_fallbacks = [];
  strategy_profile = some (codes "rotation");
  account_group = none;
  service_name = none;
  account_ids = codes "U1" ∷ [];
  dry_run_only = dry;
  execution_mode = none;
  cash_reserve_ratio = percent 5;
  rebalance_threshold_ratio = percent 2;
  limit_buy_premium = fixed_float.lit 1005 3;
  cash_reserve_floor_usd = dollars 0;
  quantity_step = dollars 1;
  min_order_notional = dollars 50;
  safe_haven_cash_substitute_threshold_usd = dollars 1000;
  market_currency = codes "USD";
  limit_buy_premium_by_symbol = [];
  cash_only_execution = true;
}

abbrev pub kit : Kit Fixed
kit = record {
  sweep_rule = λ _ _ _ _. false;
  compatibility = λ targets _ _ _ _ _. record {
    targets = targets;
    whole_share_substituted_symbols = [];
    safe_haven_cash_substituted_symbols = [];
  };
  iterate = λ symbols. symbols;
  paper_admission = none;
  new_risk = none;
  target_hash = λ _. codes "hash";
  parse = λ _. none;
}

abbrev pub report_of : Intent Fixed → Report Fixed
report_of i = record {
  status = codes "Filled";
  quantity = i.quantity;
  filled_quantity = i.quantity;
  average_fill_price = dollars 100;
  broker_order_id = some (codes "7");
}

-- Every order is filled; the claim is granted if there is one.
abbrev pub broker :
    Option (Unit {0} → Result Bool × Unit {0}) → List OpenOrder → Broker Fixed (Unit {0})
broker claim orders = record {
  submit = λ i s. (ok (report_of i), s);
  claim = claim;
  settle = λ s. s;
  account_values = λ _. [];
  open_orders = λ _. orders;
  fills = λ _. [];
  quotes = λ _ _. (voo, dollars 100) ∷ (xlk, dollars 200) ∷ [];
}

abbrev pub claimed : Option (Unit {0} → Result Bool × Unit {0})
claimed = some (λ s. (ok true, s))

abbrev pub fresh : Run Fixed (Unit {0})
fresh = record {
  world = record { session = tt; sent = []; locks = [] };
  summary = start_summary (dollars 0);
}
