-- ===== src/Portfolio/Reconciled.antt =====
-- application/ibkr_portfolio.py: `fetch_reconciled_paper_portfolio_snapshot`.
pub mod Usable
use ibkrquant.Prelude.{
  ◌≡◌, ◌≢◌, refl, Bool, true, false, ◌&&◌, ◌||◌, not, List, [], ◌∷◌, ◌++◌, Option, none, some, Text,
  codes, strip, normalize, text_eq, text_eq→path, is_blank_text, is_empty, map, All, All-append,
  if◌then◌else◌, arith,
}
use ibkrquant.Number.{Float, ◌⊕◌, ◌≼◌, nought, is_zero, sum_from}
use ibkrquant.Execution.Types.{AccountValue}
use ibkrquant.Execution.Accounts.{
  normalize_account_ids, matches_account, market_currency, cash_value_for_currency,
}
use ibkrquant.Portfolio.Stocks.{StockPosition}

-- An item of `ib.portfolio(account)`. A number is what `float` makes of it.
pub record PortfolioItem (F : Type 0) : Type 0 where
  pub account : Text
  pub symbol : Text
  pub currency : Text
  pub con_id : Text
  pub position : Option F
  pub market_value : Option F
  pub average_cost : Option F

-- The snapshot; `cash_balance` and `buying_power` are the cash.
pub record CurrentSnapshot (F : Type 0) : Type 0 where
  pub total_equity : F
  pub cash : F
  pub positions : List (StockPosition F)
  pub account_ids : List Text

-- What a turn of the loop over the items decides.
pub data ItemTurn (F : Type 0) : Type 0 where
  skip unusable : ItemTurn F
  hold : StockPosition F → ItemTurn F

-- `dedupe_key`
pub record ItemKey (F : Type 0) : Type 0 where
  pub account : Text
  pub symbol : Text
  pub con_id : Text
  pub quantity : F

-- `positions` and `seen_positions`
pub record HeldItems (F : Type 0) : Type 0 where
  pub positions : List (StockPosition F)
  pub seen : List (ItemKey F)

abbrev pub account_queries : List Text → List Text
account_queries selected = if is_empty selected then [] ∷ [] else selected

module _ {F : Type 0} where
  -- `portfolio_fn(account_id)` for every account, one after the other; `none` is an exception
  unfoldable pub query_items :
      (Text → Option (List (PortfolioItem F))) → List Text → Option (List (PortfolioItem F))
  query_items portfolio [] = some []
  query_items portfolio (account ∷ accounts) = elim (portfolio account) [
    | none ↦ none
    | some found ↦ elim (query_items portfolio accounts) [
      | none ↦ none
      | some rest ↦ some (found ++ rest)
    ]
  ]

  abbrev pub then_held :
      Option (HeldItems F) → (HeldItems F → Option (HeldItems F)) → Option (HeldItems F)
  then_held none g = none
  then_held (some h) g = g h

module _ {F : Type 0} ⦃f : Float F⦄ where
  abbrev pub numbers : PortfolioItem F → Option F → Option F → Option F → ItemTurn F
  numbers i (some quantity) (some market_value) (some average_cost) =
      if is_zero quantity
      then skip
      else hold (record {
        symbol = normalize i.symbol;
        quantity = quantity;
        market_value = market_value;
        average_cost = average_cost;
        currency = normalize i.currency;
      })
  numbers i _ _ _ = unusable

  -- the tests of one turn
  unfoldable pub item_turn : List Text → Text → PortfolioItem F → ItemTurn F
  item_turn selected currency i =
      if not (matches_account i.account selected)
      then skip
      else if is_blank_text (normalize i.symbol) || not (text_eq (normalize i.currency) currency)
      then unusable
      else numbers i i.position i.market_value i.average_cost

  abbrev same_key : ItemKey F → ItemKey F → Bool
  same_key k j =
      text_eq k.account j.account
      && text_eq k.symbol j.symbol
      && text_eq k.con_id j.con_id
      && (k.quantity ≼ j.quantity && j.quantity ≼ k.quantity)

  abbrev pub is_seen : ItemKey F → List (ItemKey F) → Bool
  is_seen k [] = false
  is_seen k (j ∷ js) = same_key k j || is_seen k js

  abbrev pub key_of : PortfolioItem F → StockPosition F → ItemKey F
  key_of i p = record {
    account = strip i.account;
    symbol = p.symbol;
    con_id = i.con_id;
    quantity = p.quantity;
  }

  abbrev pub held_one : PortfolioItem F → StockPosition F → HeldItems F → HeldItems F
  held_one i p h =
      if is_seen (key_of i p) h.seen
      then h
      else record { positions = h.positions ++ p ∷ []; seen = key_of i p ∷ h.seen }

  abbrev pub take_item : PortfolioItem F → ItemTurn F → HeldItems F → Option (HeldItems F)
  take_item i skip h = some h
  take_item i unusable h = none
  take_item i (hold p) h = some (held_one i p h)

  -- the loop over the items; `none` is the error of an item that is not usable
  unfoldable pub hold_items :
      List Text → Text → List (PortfolioItem F) → HeldItems F → Option (HeldItems F)
  hold_items selected currency [] h = some h
  hold_items selected currency (i ∷ items) h =
      then_held (take_item i (item_turn selected currency i) h) (hold_items selected currency items)

  abbrev pub snapshot_from :
      List Text → Option (HeldItems F) → Option F → Option (CurrentSnapshot F)
  snapshot_from selected (some h) (some cash) = some (record {
    total_equity = cash ⊕ sum_from nought (map (λ p. p.market_value) h.positions);
    cash = cash;
    positions = h.positions;
    account_ids = selected;
  })
  snapshot_from selected _ _ = none

  abbrev pub held_items : List Text → Text → Option (List (PortfolioItem F)) → Option (HeldItems F)
  held_items selected currency none = none
  held_items selected currency (some items) =
      hold_items selected currency items (record { positions = []; seen = [] })

  -- `fetch_reconciled_paper_portfolio_snapshot`, with the parsing of numbers and the calls of IBKR
  unfoldable pub fetch_reconciled_paper_portfolio_snapshot :
      (Text → Option F)
      → (Text → Option (List (PortfolioItem F)))
      → Option (List AccountValue)
      → List Text
      → Text
      → Option (CurrentSnapshot F)
  fetch_reconciled_paper_portfolio_snapshot parse portfolio none account_ids given = none
  fetch_reconciled_paper_portfolio_snapshot parse portfolio (some values) account_ids given =
      let selected = normalize_account_ids account_ids in
      snapshot_from selected
        (held_items selected (market_currency given)
          (query_items portfolio (account_queries selected)))
        (cash_value_for_currency parse values given account_ids)
