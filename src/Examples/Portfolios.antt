-- ===== src/Examples/Portfolios.antt =====
-- A portfolio that IBKR shows for one account.
use ibkrquant.Prelude.{◌≡◌, List, [], ◌∷◌, Option, none, some, Text, codes, text_eq, if◌then◌else◌}
use ibkrquant.Number.Fixed.{Fixed, fixed_float, dollars}
use ibkrquant.Execution.Types.{AccountValue}
use ibkrquant.Examples.Samples.{voo}
use ibkrquant.Portfolio.Reconciled.{PortfolioItem, CurrentSnapshot}

abbrev parse : Text → Option Fixed
parse t = if text_eq t (codes "300") then some (dollars 300) else none

-- The second item repeats the first one.
abbrev item : PortfolioItem Fixed
item = record {
  account = codes "U1";
  symbol = codes "voo ";
  currency = codes "usd";
  con_id = codes "11";
  position = some (dollars 5);
  market_value = some (dollars 500);
  average_cost = some (dollars 90);
}

abbrev shown : Text → Option (List (PortfolioItem Fixed))
shown account = some (item ∷ item ∷ [])

abbrev cash : List AccountValue
cash =
    record {
      account = codes "U1";
      tag = codes "CashBalance";
      currency = codes "USD";
      value = codes "300";
    }
    ∷ []

abbrev snapshot : CurrentSnapshot Fixed
snapshot = record {
  total_equity = dollars 800;
  cash = dollars 300;
  positions =
      record {
        symbol = voo;
        quantity = dollars 5;
        market_value = dollars 500;
        average_cost = dollars 90;
        currency = codes "USD";
      }
      ∷ [];
  account_ids = codes "U1" ∷ [];
}
