-- ===== src/Execution/Outcome.antt =====
-- application/execution_service.py: what a broker report's status means for an order, and where the
-- order is recorded.
pub mod Recording
use ibkrquant.Prelude.{
  Bool, true, false, ◌||◌, List, [], ◌∷◌, ◌++◌, Option, none, some, Text, codes, strip, mem_text,
  is_blank_text, if◌then◌else◌,
}
use ibkrquant.Execution.Types.{Reason, submit_failed, option_submit_failed, Row, Buckets, Summary}

-- `_FILLED_ORDER_STATUSES` and its two siblings
abbrev pub filled_statuses : List Text
filled_statuses = codes "Filled" ∷ []

abbrev pub partially_filled_statuses : List Text
partially_filled_statuses = codes "PartiallyFilled" ∷ codes "Partial" ∷ []

abbrev pub pending_statuses : List Text
pending_statuses =
    codes "PendingSubmit"
    ∷ codes "ApiPending"
    ∷ codes "ApiPendingSubmit"
    ∷ codes "Submitted"
    ∷ codes "PreSubmitted"
    ∷ []

-- `check_order_submitted`, without its message
unfoldable pub check_order_submitted : Text → Bool
check_order_submitted status =
    if mem_text status filled_statuses
    then true
    else if mem_text status partially_filled_statuses
    then true
    else if mem_text status pending_statuses
    then true
    else false

pub data Outcome : Type 0 where
  filled partially_filled pending failed : Outcome

abbrev pub is_failed : Outcome → Bool
is_failed Outcome.failed = true
is_failed _ = false

-- `normalized_status or default`
abbrev pub or_text : Text → Text → Text
or_text s default = if is_blank_text s then default else s

abbrev pub append {ℓ} : {A : Type ℓ} → List A → A → List A
append xs x = xs ++ x ∷ []

-- the outcome that a status text names
unfoldable pub classify : Text → Outcome
classify status =
    if mem_text status filled_statuses
    then Outcome.filled
    else if mem_text status partially_filled_statuses
    then Outcome.partially_filled
    else if mem_text status pending_statuses
    then Outcome.pending
    else Outcome.failed

module _ {F : Type 0} where
  abbrev pub put : Outcome → Text → Row F → Buckets F → Buckets F
  put Outcome.filled status row b = record b { filled = append b.filled row }
  put Outcome.partially_filled status row b = record b {
    partially_filled = append b.partially_filled row;
  }
  put Outcome.pending status row b = record b { pending = append b.pending row }
  put Outcome.failed status row b = record b {
    skipped = append b.skipped (record {
      symbol = row.symbol;
      action = some row.action;
      quantity = some row.quantity;
      limit_price = row.limit_price;
      reason = or_text status (codes "submit_failed");
    });
  }

  abbrev pub failure : Bool → Text → Text → Reason F
  failure true symbol status = option_submit_failed symbol (or_text status (codes "unknown"))
  failure false symbol status = submit_failed symbol (or_text status (codes "unknown"))

  abbrev pub append_failure : Outcome → Reason F → List (Reason F) → List (Reason F)
  append_failure Outcome.failed reason rs = append rs reason
  append_failure _ reason rs = rs

  -- `orders` or `option_orders`, by the prefix of the keys
  abbrev pub on_buckets : Bool → (Buckets F → Buckets F) → Summary F → Summary F
  on_buckets true g s = record s { option_orders = g s.option_orders }
  on_buckets false g s = record s { orders = g s.orders }

  -- `_record_order_outcome`
  unfoldable pub record_order_outcome : Bool → Text → Row F → Summary F → Outcome × Summary F
  unfolding classify
  record_order_outcome option_order status row s =
      let normalized = strip status in
      let outcome = classify normalized in
      let s' = on_buckets option_order (put outcome normalized row) s in
      (
        outcome,
        record s' {
          skipped_reasons =
              append_failure outcome (failure option_order row.symbol normalized)
                s'.skipped_reasons;
        },
      )
