-- ===== src/Portfolio/Stocks.antt =====
-- application/ibkr_portfolio.py: `fetch_portfolio_snapshot`.
use ibkrquant.Prelude.{
  Bool, true, false, ◌&&◌, ◌||◌, not, List, [], ◌∷◌, Option, none, some, Text, codes, strip,
  normalize, text_eq, is_blank_text, is_empty, keep, get_or, Dict, insert, if◌then◌else◌,
}
use ibkrquant.Number.{Float, ◌⊕◌, ◌⊗◌, nought, is_zero, abs}
use ibkrquant.Execution.Types.{AccountValue}
use ibkrquant.Execution.Accounts.{
  normalize_account_ids, matches_account, market_currency, cash_value_for_currency,
}

-- An entry of `ib.positions()`.
pub record RawPosition (F : Type 0) : Type 0 where
  pub account : Text
  pub symbol : Text
  pub local_symbol : Text
  pub expiration : Text
  pub right : Text
  pub strike : F
  pub sec_type : Text
  pub currency : Text
  pub position : F
  pub average_cost : F

-- `Position`
pub record StockPosition (F : Type 0) : Type 0 where
  pub symbol : Text
  pub quantity : F
  pub market_value : F
  pub average_cost : F
  pub currency : Text

pub record OptionPosition (F : Type 0) : Type 0 where
  pub underlier : Text
  pub local_symbol : Text
  pub expiration : Text
  pub right : Text
  pub strike : F
  pub quantity : F
  pub average_cost : F
  pub cost_basis : F
  pub account_id : Text
  pub currency : Text

-- `PortfolioSnapshot`, without the cash balances of its metadata.
pub record StockSnapshot (F : Type 0) : Type 0 where
  pub total_equity : F
  pub buying_power : F
  pub positions : List (StockPosition F)
  pub account_ids : List Text
  pub option_positions : List (OptionPosition F)
  pub market_currency_cash : Option F
  pub available_funds : Option F

-- the account values of the selected accounts, and those of them in a currency
unfoldable pub matched_values : List Text → List AccountValue → List AccountValue
matched_values selected = keep (λ v. matches_account v.account selected)

unfoldable pub values_in : Text → List AccountValue → List AccountValue
values_in currency = keep (λ v. text_eq (normalize v.currency) currency)

module _ {F : Type 0} ⦃f : Float F⦄ where
  abbrev is_option : RawPosition F → Bool
  is_option p = text_eq (normalize p.sec_type) (codes "OPT")

  abbrev currency_of : Text → RawPosition F → Text
  currency_of currency p =
      if is_blank_text (normalize p.currency) then currency else normalize p.currency

  -- the positions of the selected accounts that are not empty
  unfoldable pub held : List Text → List (RawPosition F) → List (RawPosition F)
  held selected = keep (λ p. matches_account p.account selected && not (is_zero p.position))

  abbrev stock_of : Text → RawPosition F → StockPosition F
  stock_of currency p = record {
    symbol = normalize p.symbol;
    quantity = p.position;
    market_value = p.position ⊗ p.average_cost;
    average_cost = p.average_cost;
    currency = currency_of currency p;
  }

  abbrev option_of : Text → RawPosition F → OptionPosition F
  option_of currency p = record {
    underlier = normalize p.symbol;
    local_symbol = strip p.local_symbol;
    expiration = strip p.expiration;
    right = normalize p.right;
    strike = p.strike;
    quantity = p.position;
    average_cost = p.average_cost;
    cost_basis = abs (p.position ⊗ p.average_cost);
    account_id = strip p.account;
    currency = currency_of currency p;
  }

  unfoldable pub stock_positions : Text → List (RawPosition F) → List (StockPosition F)
  stock_positions currency [] = []
  stock_positions currency (p ∷ ps) =
      let rest = stock_positions currency ps in
      if is_option p then rest else stock_of currency p ∷ rest

  unfoldable pub option_positions : Text → List (RawPosition F) → List (OptionPosition F)
  option_positions currency [] = []
  option_positions currency (p ∷ ps) =
      let rest = option_positions currency ps in
      if is_option p then option_of currency p ∷ rest else rest

  -- `position_market_values`: a symbol that is held twice keeps its last value
  unfoldable pub position_market_values : Dict F → List (StockPosition F) → Dict F
  position_market_values acc [] = acc
  position_market_values acc (p ∷ ps) =
      position_market_values (insert (normalize p.symbol) p.market_value acc) ps

-- the net liquidation and the available funds in the market currency, from those so far
pub record Funds (F : Type 0) : Type 0 where
  pub total_equity : F
  pub available_funds : Option F

module _ {F : Type 0} where
  abbrev counted : Option F → (F → Funds F) → Option (Funds F)
  counted none g = none
  counted (some v) g = some (g v)

  abbrev then_funds : Option (Funds F) → (Funds F → Option (Funds F)) → Option (Funds F)
  then_funds none g = none
  then_funds (some x) g = g x

  abbrev is_missing : Bool → Option F → Bool
  is_missing true none = true
  is_missing _ _ = false

module _ {F : Type 0} ⦃f : Float F⦄ where
  abbrev add_funds : Option F → F → F
  add_funds none v = v
  add_funds (some total) v = total ⊕ v

  abbrev buying_power_of : Bool → Option F → Option F → F
  buying_power_of true cash available = get_or cash nought
  buying_power_of false cash (some a) = a
  buying_power_of false cash none = get_or cash nought

  abbrev equity_of : Bool → (Dict F → F → F) → List (StockPosition F) → Option F → F → F
  equity_of true total positions cash liquidation =
      total (position_market_values [] positions) (get_or cash nought)
  equity_of false total positions cash liquidation = liquidation

module _ {F : Type 0} ⦃f : Float F⦄ (parse : Text → Option F) where
  -- one turn of the loop over the values in the market currency; `none` is the exception of `float`
  unfoldable pub add_value : AccountValue → Funds F → Option (Funds F)
  add_value v funds =
      if text_eq v.tag (codes "NetLiquidation")
      then counted (parse v.value) (λ x. record funds { total_equity = funds.total_equity ⊕ x })
      else if text_eq v.tag (codes "AvailableFunds")
      then counted (parse v.value)
          (λ x. record funds { available_funds = some (add_funds funds.available_funds x) })
      else some funds

  unfoldable pub add_values : List AccountValue → Funds F → Option (Funds F)
  add_values [] funds = some funds
  add_values (v ∷ vs) funds = then_funds (add_value v funds) (add_values vs)

  abbrev with_funds :
      (Dict F → F → F)
      → Bool
      → Text
      → List Text
      → List (RawPosition F)
      → Option F
      → Option (Funds F)
      → Option (StockSnapshot F)
  with_funds total cash_only currency selected positions cash none = none
  with_funds total cash_only currency selected positions cash (some funds) = some (record {
    total_equity =
        equity_of cash_only total (stock_positions currency positions) cash funds.total_equity;
    buying_power = buying_power_of cash_only cash funds.available_funds;
    positions = stock_positions currency positions;
    account_ids = selected;
    option_positions = option_positions currency positions;
    market_currency_cash = cash;
    available_funds = funds.available_funds;
  })

  -- the three tests on what IBKR returned
  unfoldable pub is_unavailable : List Text → Text → List AccountValue → Bool → Option F → Bool
  is_unavailable selected currency values cash_only cash =
      let matched = matched_values selected values in
      not (
        (is_empty selected || not (is_empty matched))
        && (is_empty selected || not (is_empty (values_in currency matched)))
        && not (is_missing cash_only cash))

  -- `fetch_portfolio_snapshot`, with `compute_strategy_total_equity`; `none` is an exception
  unfoldable pub fetch_portfolio_snapshot :
      (Dict F → F → F)
      → List Text
      → Text
      → Bool
      → List (RawPosition F)
      → List AccountValue
      → Option (StockSnapshot F)
  fetch_portfolio_snapshot total account_ids given cash_only raw values =
      let selected = normalize_account_ids account_ids in
      let currency = market_currency given in
      let cash = cash_value_for_currency parse values given account_ids in
      let funds =
        add_values (values_in currency (matched_values selected values))
          (record { total_equity = nought; available_funds = none }) in
      if is_unavailable selected currency values cash_only cash
      then none
      else with_funds total cash_only currency selected (held selected raw) cash funds
