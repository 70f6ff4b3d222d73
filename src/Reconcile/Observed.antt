-- ===== src/Reconcile/Observed.antt =====
-- application/broker_reconciliation.py: what a broker shows, normalised.
pub mod Surfaces
pub mod Scope
pub mod Collected
use ibkrquant.Prelude.{
  Bool, true, false, ◌&&◌, ◌||◌, not, List, [], ◌∷◌, ◌++◌, Option, none, some, Text, codes, strip,
  upper, text_eq, mem_text, unique, keep, map, all, is_blank_text, is_empty, sorted, Dict, lookup,
  insert, if◌then◌else◌,
}
use ibkrquant.Reconcile.Checked.{
  Refusal, Checked, ok, refused, ◌>>=◌, ◌>>◌, require, missing_field, unscoped, out_of_scope,
  no_account_ids, no_cash_tag, no_contract, incomplete_execution, bad_metadata, no_identity,
  no_cash_balances, no_open_orders, no_executions, snapshot_failed,
}
use ibkrquant.Reconcile.Sources.Records.{sort_by}

-- `_CASH_BALANCE_TAG_PRIORITY`
abbrev pub cash_balance_tag_priority : List Text
cash_balance_tag_priority =
    codes "$LEDGER-CashBalance"
    ∷ codes "$LEDGER-TotalCashBalance"
    ∷ codes "CashBalance"
    ∷ codes "TotalCashBalance"
    ∷ codes "SettledCash"
    ∷ []

-- `_number`, on what `float` makes of a value
abbrev pub number : {F : Type 0} → Option F → Text → Checked F
number none field = refused (missing_field field)
number (some x) field = ok x

-- `normalize_account_ids`, of a sequence if there is one
unfoldable pub scope_ids : Option (List Text) → Checked (List Text)
scope_ids none = ok []
scope_ids (some ids) =
    let normalized = unique (keep (λ t. not (is_blank_text t)) (map strip ids)) in
    do require (not (is_empty normalized)) no_account_ids; ok normalized

-- `_account_in_scope`
unfoldable pub account_in_scope : Text → List Text → Text → Checked Bool
account_in_scope account_id selected surface = do
  require (not (is_blank_text (strip account_id))) (unscoped surface)
  ok (mem_text (strip account_id) selected)

-- The attributes of a contract, each as `str(value or "")`, here and below.
pub record Contract : Type 0 where
  pub con_id : Text
  pub symbol : Text
  pub local_symbol : Text
  pub sec_type : Text
  pub currency : Text

-- `_safe_contract_fields`
unfoldable pub safe_contract_fields : Contract → Contract
safe_contract_fields c = record {
  con_id = strip c.con_id;
  symbol = upper (strip c.symbol);
  local_symbol = strip c.local_symbol;
  sec_type = upper (strip c.sec_type);
  currency = upper (strip c.currency);
}

-- A position of the snapshot, with its numbers as `float` reads them.
pub record Position (F : Type 0) : Type 0 where
  pub symbol : Text
  pub quantity : Option F
  pub average_cost : Option F
  pub currency : Text

pub record OptionPosition (F : Type 0) : Type 0 where
  pub account_id : Text
  pub underlier : Text
  pub local_symbol : Text
  pub expiration : Text
  pub right : Text
  pub strike : Option F
  pub quantity : Option F
  pub average_cost : Option F
  pub currency : Text

-- The records of positions: of a stock, or of an option with its account.
pub data PositionRecord (F : Type 0) : Type 0 where
  -- symbol, quantity, average cost, currency
  stock : Text → F → F → Text → PositionRecord F
  -- account, underlier, local symbol, expiration, right, strike, quantity, average cost, currency
  option : Text → Text → Text → Text → Text → F → F → F → Text → PositionRecord F

-- A value of a cash mapping, as `str` and as `float` read it.
pub record Cell (F : Type 0) : Type 0 where
  pub text : Text
  pub number : Option F

pub record CashRecord (F : Type 0) : Type 0 where
  pub account : Text
  pub currency : Text
  pub tag : Text
  pub amount : F

-- An open trade, with the attributes of its order and status as `getattr` reads them.
pub record OpenTrade (F : Type 0) : Type 0 where
  pub order_account : Text
  pub account : Text
  pub contract : Option Contract
  pub perm_id : Text
  pub action : Text
  pub order_type : Text
  pub total_quantity : Option F
  pub limit_price : Option F
  pub aux_price : Option F
  pub status : Text
  pub filled : Option F
  pub remaining : Option F

pub record OrderRecord (F : Type 0) : Type 0 where
  pub account : Text
  pub contract : Contract
  pub perm_id : Text
  pub action : Text
  pub order_type : Text
  pub total_quantity : F
  pub limit_price : F
  pub aux_price : F
  pub status : Text
  pub filled : F
  pub remaining : F

pub record Execution (F : Type 0) : Type 0 where
  pub execution_id : Text
  pub order_id : Text
  pub time : Text
  pub side : Text
  pub shares : Option F
  pub price : Option F

-- A fill, with `acctNumber` of its execution and `account` of its trade's order.
pub record Fill (F : Type 0) : Type 0 where
  pub account_number : Text
  pub order_account : Text
  pub execution : Option (Execution F)
  pub contract : Option Contract

pub record ExecutionRecord (F : Type 0) : Type 0 where
  pub account : Text
  pub contract : Contract
  pub execution_id : Text
  pub order_id : Text
  pub time : Text
  pub side : Text
  pub shares : F
  pub price : F

abbrev pub with_contract : Option Contract → Checked Contract
with_contract none = refused no_contract
with_contract (some c) = ok c

module _ {F : Type 0} where
  unfoldable pub normalise_position : Position F → Checked (PositionRecord F)
  normalise_position p = do
    q ← number p.quantity (codes "position quantity")
    c ← number p.average_cost (codes "position average cost")
    ok (stock (upper (strip p.symbol)) q c (upper (strip p.currency)))

  unfoldable pub normalise_option_position :
      List Text → OptionPosition F → Checked (PositionRecord F)
  normalise_option_position selected p = do
    within ← account_in_scope p.account_id selected (codes "option position")
    require within (out_of_scope (codes "option position"))
    s ← number p.strike (codes "option strike")
    q ← number p.quantity (codes "option quantity")
    c ← number p.average_cost (codes "option average cost")
    ok (
        option (strip p.account_id) (upper (strip p.underlier)) (strip p.local_symbol)
          (strip p.expiration) (upper (strip p.right)) s q c (upper (strip p.currency)))

  abbrev pub text_at : Text → Dict (Cell F) → Text
  text_at key d = elim (lookup key d) [ none ↦ [] | some c ↦ c.text ]

  -- the dict of the numbers, given what was put in before
  unfoldable pub numeric_tags : Dict F → Dict (Cell F) → Checked (Dict F)
  numeric_tags d [] = ok d
  numeric_tags d ((tag, cell) ∷ rest) =
      elim (mem_text (strip tag) (codes "account_id" ∷ codes "currency" ∷ [])) [
        | true ↦ numeric_tags d rest
        | false ↦ number cell.number (strip tag) >>= λ x. numeric_tags (insert (strip tag) x d) rest
      ]

  -- the first of the tags that there is
  unfoldable pub first_tag : List Text → Dict F → Option (Text × F)
  first_tag [] d = none
  first_tag (tag ∷ tags) d = elim (lookup tag d) [
    | some x ↦ some (tag, x)
    | none ↦ first_tag tags d
  ]

  abbrev pub cash_record : Text → Text → Option (Text × F) → Checked (CashRecord F)
  cash_record account currency none = refused no_cash_tag
  cash_record account currency (some (t, x)) =
      ok (record { account = account; currency = currency; tag = t; amount = x })

  unfoldable pub normalise_cash_balance : List Text → Dict (Cell F) → Checked (CashRecord F)
  normalise_cash_balance selected value = do
    within ← account_in_scope (strip (text_at (codes "account_id") value)) selected (codes "cash")
    require within (out_of_scope (codes "cash"))
    tags ← numeric_tags [] value
    cash_record (strip (text_at (codes "account_id") value))
        (upper (strip (text_at (codes "currency") value)))
        (first_tag cash_balance_tag_priority tags)

  unfoldable pub open_trade_account : OpenTrade F → Text
  open_trade_account t = if is_blank_text t.order_account then t.account else t.order_account

  abbrev pub order_record : OpenTrade F → Checked (OrderRecord F)
  order_record t = do
    c ← with_contract t.contract
    quantity ← number t.total_quantity (codes "open order total quantity")
    limit ← number t.limit_price (codes "open order limit price")
    aux ← number t.aux_price (codes "open order aux price")
    filled ← number t.filled (codes "open order filled quantity")
    remaining ← number t.remaining (codes "open order remaining quantity")
    ok (record {
      account = strip (open_trade_account t);
      contract = safe_contract_fields c;
      perm_id = strip t.perm_id;
      action = upper (strip t.action);
      order_type = upper (strip t.order_type);
      total_quantity = quantity;
      limit_price = limit;
      aux_price = aux;
      status = strip t.status;
      filled = filled;
      remaining = remaining;
    })

  unfoldable pub execution_account : Fill F → Text
  execution_account f =
      if is_blank_text (strip f.account_number) then f.order_account else f.account_number

  abbrev pub execution_record :
      Text → Option (Execution F) → Option Contract → Checked (ExecutionRecord F)
  execution_record account (some e) (some c) = do
    shares ← number e.shares (codes "execution shares")
    price ← number e.price (codes "execution price")
    ok (record {
      account = account;
      contract = safe_contract_fields c;
      execution_id = strip e.execution_id;
      order_id = strip e.order_id;
      time = strip e.time;
      side = upper (strip e.side);
      shares = shares;
      price = price;
    })
  execution_record account none c = refused incomplete_execution
  execution_record account (some e) none = refused incomplete_execution
