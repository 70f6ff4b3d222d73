-- ===== src/Portfolio/Reconciled/Usable.antt =====
-- application/ibkr_portfolio.py: what a reconciled snapshot says of the items that IBKR returned.
use ibkrquant.Prelude.{◌≡◌, ◌≢◌, false, List, Option, some, Text, is_blank_text, map, All}
use ibkrquant.Number.{Float, ◌⊕◌, nought, is_zero, sum_from}
use ibkrquant.Portfolio.Stocks.{StockPosition}
use ibkrquant.Portfolio.Reconciled.{PortfolioItem, CurrentSnapshot, unusable, item_turn}

-- An item of another account, of no quantity, or with a symbol, the currency and its three numbers.
abbrev pub IsUsable : {F : Type 0} ⦃f : Float F⦄ → List Text → Text → PortfolioItem F → Type 0
IsUsable selected currency i = item_turn selected currency i ≢ unusable

-- A position with a symbol, in the currency, that is not empty.
abbrev pub IsHeld : {F : Type 0} ⦃f : Float F⦄ → Text → StockPosition F → Type 0
IsHeld currency p =
    (is_blank_text p.symbol ≡ false) × (p.currency ≡ currency) × (is_zero p.quantity ≡ false)

-- A snapshot of which every item that IBKR returned is usable and every position is held, with the cash
-- that the account values show, and the equity that cash and market values make.
pub record IsCurrent {F : Type 0} ⦃f : Float F⦄ (items : Option (List (PortfolioItem F)))
    (cash : Option F) (selected : List Text) (currency : Text) (s : CurrentSnapshot F)
    : Type 0 where
  pub returned : List (PortfolioItem F)
  pub are_items : items ≡ some returned
  pub usable : All (IsUsable selected currency) returned
  pub held : All (IsHeld currency) s.positions
  pub is_cash : cash ≡ some s.cash
  pub is_equity : s.total_equity ≡ s.cash ⊕ sum_from nought (map (λ p. p.market_value) s.positions)
