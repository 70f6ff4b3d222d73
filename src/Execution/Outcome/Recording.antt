-- ===== src/Execution/Outcome/Recording.antt =====
-- application/execution_service.py: `_record_order_outcome` and `check_order_submitted` together.
use ibkrquant.Prelude.{
  ℕ, suc, ◌+◌, ◌≡◌, ◌≢◌, refl, ◌↔◌, Bool, true, false, not, List, [], ◌∷◌, ◌++◌, Text, strip,
  length, length-append, ap, arith,
}
use ibkrquant.Execution.Types.{Reason, Row, Buckets, Summary}
use ibkrquant.Execution.Outcome.{Outcome, classify, put, append_failure, record_order_outcome}

append-ne : {A : Type 0} (xs : List A) (x : A) → xs ++ x ∷ [] ≢ xs
append-ne xs x e = omega (arith, ap length e, length-append xs (x ∷ []))

module _ {F : Type 0} where
  -- every order on record, executed or not
  abbrev pub recorded : Buckets F → ℕ
  recorded b =
      length b.submitted
      + length b.pending
      + length b.filled
      + length b.partially_filled
      + length b.skipped

  abbrev pub side_of : Bool → Summary F → Buckets F
  side_of true s = s.option_orders
  side_of false s = s.orders

  -- the rows that count as an execution
  abbrev pub executed_rows : Buckets F → List (Row F)
  executed_rows b = b.submitted ++ b.filled ++ b.partially_filled

  put-recorded :
      (outcome : Outcome) (status : Text) (row : Row F) (b : Buckets F)
      → recorded (put outcome status row b) ≡ suc (recorded b)
  put-recorded Outcome.filled status row b = omega (arith, length-append b.filled (row ∷ []))
  put-recorded Outcome.partially_filled status row b =
      omega (arith, length-append b.partially_filled (row ∷ []))
  put-recorded Outcome.pending status row b = omega (arith, length-append b.pending (row ∷ []))
  put-recorded Outcome.failed status row b = omega (arith, length-append b.skipped (_ ∷ []))

  append_failure_iff :
      (outcome : Outcome) (reason : Reason F) (rs : List (Reason F))
      → (append_failure outcome reason rs ≡ rs) ↔ (outcome ≢ Outcome.failed)
  append_failure_iff Outcome.failed reason rs =
      (λ e. absurd (append-ne rs reason e), λ h. absurd (h refl))
  append_failure_iff Outcome.filled reason rs = (λ _. cc, λ _. refl)
  append_failure_iff Outcome.partially_filled reason rs = (λ _. cc, λ _. refl)
  append_failure_iff Outcome.pending reason rs = (λ _. cc, λ _. refl)

  -- Each report is filed exactly once: the list of its kind of order grows by one entry, the other
  -- kind's lists stay, and a reason is noted just when the outcome is a failure.
  pub record_order_outcome-once :
      (option_order : Bool) (status : Text) (row : Row F) (s : Summary F)
      → let (outcome, s') = record_order_outcome option_order status row s in
        (recorded (side_of option_order s') ≡ suc (recorded (side_of option_order s)))
        × (side_of (not option_order) s' ≡ side_of (not option_order) s)
        × ((s'.skipped_reasons ≡ s.skipped_reasons) ↔ (outcome ≢ Outcome.failed))
  unfolding record_order_outcome
  record_order_outcome-once true status row s =
      let outcome = classify (strip status) in
      (
        put-recorded outcome (strip status) row s.option_orders,
        refl,
        append_failure_iff outcome _ s.skipped_reasons,
      )
  record_order_outcome-once false status row s =
      let outcome = classify (strip status) in
      (
        put-recorded outcome (strip status) row s.orders,
        refl,
        append_failure_iff outcome _ s.skipped_reasons,
      )

  -- A report that is pending, or a failure, adds nothing to the orders that count as executed.
  pub record_order_outcome-executed :
      (option_order : Bool) (status : Text) (row : Row F) (s : Summary F)
      → (record_order_outcome option_order status row s).0 ≢ Outcome.filled
      → (record_order_outcome option_order status row s).0 ≢ Outcome.partially_filled
      → executed_rows (side_of option_order (record_order_outcome option_order status row s).1)
        ≡ executed_rows (side_of option_order s)
  unfolding record_order_outcome
  record_order_outcome-executed true status row s p q = ground arith
  record_order_outcome-executed false status row s p q = ground arith
