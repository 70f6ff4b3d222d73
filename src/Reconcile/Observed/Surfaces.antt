-- ===== src/Reconcile/Observed/Surfaces.antt =====
-- application/broker_reconciliation.py: the surfaces of a broker, read and normalised.
use ibkrquant.Prelude.{
  Bool, true, false, not, List, [], ◌∷◌, ◌++◌, Option, none, some, Text, codes, strip, mem_text,
  keep, map, all, is_blank_text, sorted, Dict,
}
use ibkrquant.Reconcile.Checked.{
  Refusal, Checked, ok, refused, ◌>>=◌, bad_metadata, no_identity, no_cash_balances, no_open_orders,
  no_executions, snapshot_failed,
}
use ibkrquant.Reconcile.Sources.Records.{sort_by}
use ibkrquant.Reconcile.Observed.{
  CashRecord, Cell, ExecutionRecord, Fill, OpenTrade, OptionPosition, OrderRecord, Position,
  PositionRecord, account_in_scope, execution_account, execution_record, normalise_cash_balance,
  normalise_option_position, normalise_position, open_trade_account, order_record, scope_ids,
}

-- `[record for x in xs if (record := normalise(x)) is not None]`, where a record is left out whose
-- account is not selected
abbrev pub when_within : {R : Type 0} → Bool → Checked R → Checked (List R) → Checked (List R)
when_within true one rest = do r ← one; rs ← rest; ok (r ∷ rs)
when_within false one rest = rest

unfoldable pub normalise_within :
    {A R : Type 0} → (A → Text) → (A → Checked R) → Text → List Text → List A → Checked (List R)
normalise_within account normalise surface selected [] = ok []
normalise_within account normalise surface selected (x ∷ xs) =
    account_in_scope (account x) selected surface >>= λ within.
    when_within within (normalise x) (normalise_within account normalise surface selected xs)

-- the plain comprehension
unfoldable pub normalise_all : {A R : Type 0} → (A → Checked R) → List A → Checked (List R)
normalise_all f [] = ok []
normalise_all f (x ∷ xs) = do r ← f x; rs ← normalise_all f xs; ok (r ∷ rs)

-- What the broker's surfaces hold: `none` where the session has no such call or the call raises.
pub record Surfaces (F : Type 0) : Type 0 where
  pub managed_accounts : Option (List Text)
  pub open_trades : Option (List (OpenTrade F))
  pub executions : Option (List (Fill F))

-- `fetch_portfolio_snapshot`, with the lists of its metadata, `none` where they are not lists of mappings
pub record Snapshot (F : Type 0) : Type 0 where
  pub positions : List (Position F)
  pub cash_balances : Option (List (Dict (Cell F)))
  pub option_positions : Option (List (OptionPosition F))

-- `repr(sorted(record.items()))` of the records
pub record Reprs (F : Type 0) : Type 0 where
  pub of_position : PositionRecord F → Text
  pub of_cash : CashRecord F → Text
  pub of_order : OrderRecord F → Text
  pub of_execution : ExecutionRecord F → Text

pub record Observations (F : Type 0) : Type 0 where
  pub account_scope : List Text
  pub account_identity_match : Bool
  pub positions : List (PositionRecord F)
  pub cash : List (CashRecord F)
  pub open_orders : List (OrderRecord F)
  pub recent_executions : List (ExecutionRecord F)

abbrev pub found {ℓ} : {A : Type ℓ} → Option A → Refusal → Checked A
found none e = refused e
found (some a) e = ok a

-- `_sorted_records`, by one text
abbrev pub sorted_records : {R : Type 0} → (R → Text) → List R → List R
sorted_records repr = sort_by (λ r. (repr r, []))

module _ {F : Type 0} (reprs : Reprs F) where
  unfoldable pub collect_observations :
      Surfaces F → Option (List Text) → (List Text → Option (Snapshot F)) → Checked (Observations F)
  collect_observations ib account_ids fetch = do
    selected ← scope_ids account_ids
    managed ← found ib.managed_accounts no_identity
    snapshot ← found (fetch selected) snapshot_failed
    cash_balances ← found snapshot.cash_balances no_cash_balances
    options ← found snapshot.option_positions bad_metadata
    stocks ← normalise_all normalise_position snapshot.positions
    option_records ← normalise_all (normalise_option_position selected) options
    trades ← found ib.open_trades no_open_orders
    orders ← normalise_within open_trade_account order_record (codes "open order") selected trades
    fills ← found ib.executions no_executions
    executions ←
        normalise_within execution_account
          (λ f. execution_record (strip (execution_account f)) f.execution f.contract)
          (codes "execution") selected fills
    cash ← normalise_all (normalise_cash_balance selected) cash_balances
    ok (record {
      account_scope = sorted selected;
      account_identity_match =
          all (λ id. mem_text id (keep (λ t. not (is_blank_text t)) (map strip managed))) selected;
      positions = sorted_records reprs.of_position (stocks ++ option_records);
      cash = sorted_records reprs.of_cash cash;
      open_orders = sorted_records reprs.of_order orders;
      recent_executions = sorted_records reprs.of_execution executions;
    })
