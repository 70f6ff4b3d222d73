-- ===== src/Execution/Accounts.antt =====
-- application/execution_service.py: account ids, and the money that the account values show.
pub mod Ids
use ibkrquant.Prelude.{
  Bool, ◌||◌, ◌&&◌, not, List, [], ◌∷◌, Option, none, some, Text, codes, strip, normalize, text_eq,
  mem_text, unique, is_blank_text, keep, is_empty, map, Dict, lookup, insert, if◌then◌else◌,
}
use ibkrquant.Number.{Float, ◌⊕◌, nought, max}
use ibkrquant.Execution.Types.{several_accounts, Result, ok, raise, AccountValue}

abbrev has_text : Text → Bool
has_text t = not (is_blank_text t)

-- `_normalize_account_ids`; no ids are the empty list
unfoldable pub normalize_account_ids : List Text → List Text
unfolding unique strip
normalize_account_ids ids = unique (keep has_text (map strip ids))

-- `_matches_account`
unfoldable pub matches_account : Text → List Text → Bool
unfolding mem_text strip
matches_account account_id selected = is_empty selected || mem_text (strip account_id) selected

abbrev single : List Text → Result (Option Text)
single [] = ok none
single (a ∷ []) = ok (some a)
single (a ∷ b ∷ rest) = raise several_accounts

-- `_resolve_order_account_id`
unfoldable pub resolve_order_account_id : List Text → Result (Option Text)
unfolding normalize_account_ids
resolve_order_account_id ids = single (normalize_account_ids ids)

-- `MARKET_CURRENCY_CASH_TAG_PRIORITY`
abbrev pub cash_tag_priority : List Text
cash_tag_priority =
    codes "$LEDGER-CashBalance"
    ∷ codes "$LEDGER-TotalCashBalance"
    ∷ codes "CashBalance"
    ∷ codes "TotalCashBalance"
    ∷ codes "SettledCash"
    ∷ []

-- `str(currency or "USD").strip().upper()`
unfoldable pub market_currency : Text → Text
unfolding normalize
market_currency currency = normalize (if is_blank_text currency then codes "USD" else currency)

-- `float(text)` of a text that the broker sends; `none` is the caught exception.
module _ {F : Type 0} ⦃f : Float F⦄ (parse : Text → Option F) where
  -- the values by account and currency, as `values_by_account_currency`; an entry's key is the pair
  abbrev Book : Type 0
  Book = List (Text × Text × Dict F)

  abbrev set_value : Text → Text → Text → F → Book → Book
  set_value account currency tag v [] = (account, currency, insert tag v []) ∷ []
  set_value account currency tag v ((a, c, tags) ∷ book) =
      if text_eq account a && text_eq currency c
      then (a, c, insert tag v tags) ∷ book
      else (a, c, tags) ∷ set_value account currency tag v book

  -- one turn of the loop over the account values
  book_value : List Text → AccountValue → Book → Book
  book_value selected av book =
      let account = strip av.account in
      let currency = normalize av.currency in
      if not (matches_account account selected)
      then book
      else if is_blank_text currency
      then book
      else elim (parse av.value) [
        | none ↦ book
        | some v ↦ set_value account currency (strip av.tag) v book
      ]

  book_values : List Text → List AccountValue → Book → Book
  book_values selected [] book = book
  book_values selected (av ∷ avs) book = book_values selected avs (book_value selected av book)

  -- the first tag of the list that the account shows
  first_tag : List Text → Dict F → Option F
  first_tag [] tags = none
  first_tag (t ∷ ts) tags = elim (lookup t tags) [ none ↦ first_tag ts tags | some v ↦ some v ]

  add_to : Option F → F → Option F
  add_to none v = some (nought ⊕ v)
  add_to (some total) v = some (total ⊕ v)

  -- `total`, or `none` while nothing has `matched`
  total_cash : Text → Book → Option F → Option F
  total_cash currency [] acc = acc
  total_cash currency ((a, c, tags) ∷ book) acc = total_cash currency book (
      if text_eq c currency
      then elim (first_tag cash_tag_priority tags) [ none ↦ acc | some v ↦ add_to acc v ]
      else acc)

  -- `_cash_value_for_currency`
  unfoldable pub cash_value_for_currency : List AccountValue → Text → List Text → Option F
  unfolding total_cash book_values book_value first_tag add_to
  cash_value_for_currency avs currency ids =
      total_cash (market_currency currency) (book_values (normalize_account_ids ids) avs []) none

  -- `_available_funds_for_currency`
  available_funds_value : List Text → Text → AccountValue → Option F → Option F
  available_funds_value selected currency av acc =
      if not (matches_account av.account selected)
      then acc
      else if not (text_eq (normalize av.currency) currency)
      then acc
      else if text_eq (strip av.tag) (codes "AvailableFunds")
      then elim (parse av.value) [ none ↦ acc | some v ↦ add_to acc v ]
      else acc

  available_funds_from : List Text → Text → List AccountValue → Option F → Option F
  available_funds_from selected currency [] acc = acc
  available_funds_from selected currency (av ∷ avs) acc =
      available_funds_from selected currency avs (available_funds_value selected currency av acc)

  unfoldable pub available_funds_for_currency : List AccountValue → Text → List Text → Option F
  unfolding available_funds_from available_funds_value add_to
  available_funds_for_currency avs currency ids =
      available_funds_from (normalize_account_ids ids) (market_currency currency) avs none

  abbrev pub floor_at_zero : Option F → F → F
  floor_at_zero (some v) fallback = max nought v
  floor_at_zero none fallback = max nought fallback

  -- `get_available_buying_power`
  unfoldable pub get_available_buying_power : List AccountValue → F → List Text → Text → Bool → F
  get_available_buying_power avs fallback ids currency cash_only =
      if not cash_only
      then floor_at_zero (available_funds_for_currency avs currency (normalize_account_ids ids))
          fallback
      else floor_at_zero (cash_value_for_currency avs currency (normalize_account_ids ids)) fallback
