-- ===== src/Reports/Accepted.antt =====
-- scripts/execution_report_heartbeat.py: the reports that are accepted.
use ibkrquant.Prelude.{
  Bool, true, false, ◌&&◌, ◌||◌, not, List, [], ◌∷◌, Option, none, some, Text, codes, lower, upper,
  text_eq, mem_text, starts_with, is_blank_text, is_empty, map, any, length, if◌then◌else◌, Dict,
  lookup,
}
use ibkrquant.Reports.{
  Reason, Rules, Values, env_bool, errors, has_error, rejected, rejected_execution, accepted_status,
  accepted_stage, report_exists, unaccepted, report_errors, report_notification_failure,
  split_values, text_or_nested, true_at,
}

abbrev pub or_default : List Text → List Text → List Text
or_default [] default = default
or_default (t ∷ ts) default = t ∷ ts

abbrev pub default_accept_statuses : List Text
default_accept_statuses =
    codes "ok" ∷ codes "skipped" ∷ codes "success" ∷ codes "completed" ∷ codes "no_action" ∷ []

abbrev pub default_reject_statuses : List Text
default_reject_statuses =
    codes "error"
    ∷ codes "failed"
    ∷ codes "failure"
    ∷ codes "cancelled"
    ∷ codes "canceled"
    ∷ codes "timed_out"
    ∷ []

abbrev pub default_reject_execution_statuses : List Text
default_reject_execution_statuses = codes "error" ∷ codes "failed" ∷ codes "failure" ∷ []

abbrev pub default_accept_stages : List Text
default_accept_stages =
    codes "DRY_RUN_COMPLETED"
    ∷ codes "FUNDING_BLOCKED"
    ∷ codes "NO_ACTION"
    ∷ codes "ORDERS_PLANNED"
    ∷ codes "PARTIAL_SUBMITTED"
    ∷ codes "RECONCILED"
    ∷ codes "SUBMITTED"
    ∷ codes "COMPLETED"
    ∷ []

abbrev pub default_reject_stages : List Text
default_reject_stages =
    codes "ERROR" ∷ codes "EXECUTION_BLOCKED" ∷ codes "FAILED" ∷ codes "FAILURE" ∷ []

abbrev pub guard_prefixes : List Text
guard_prefixes =
    codes "pending_orders_detected:"
    ∷ codes "same_day_fills_detected:"
    ∷ codes "same_day_execution_locked:"
    ∷ []

-- `_is_expected_execution_guard`
unfoldable pub is_expected_execution_guard : Text → Text → Bool
is_expected_execution_guard status reason =
    text_eq (lower status) (codes "blocked") && any (starts_with (lower reason)) guard_prefixes

module _ {V : Type 0} (values : Values V) where
  abbrev pub after_notification : Rules → Dict V → Option Reason → Bool × Reason
  after_notification rules payload (some failure) = (false, failure)
  after_notification rules payload none =
      let status = text_or_nested values (codes "status") payload in
      let stage = text_or_nested values (codes "stage") payload in
      let execution = text_or_nested values (codes "execution_status") payload in
      let reason = text_or_nested values (codes "no_op_reason") payload in
      let accepted_statuses =
        map lower (or_default (split_values rules.accept_statuses) default_accept_statuses) in
      let reject_statuses =
        map lower (or_default (split_values rules.reject_statuses) default_reject_statuses) in
      let accepted_stages =
        map upper (or_default (split_values rules.accept_stages) default_accept_stages) in
      let reject_stages =
        map upper (or_default (split_values rules.reject_stages) default_reject_stages) in
      if mem_text (lower status) reject_statuses || mem_text (upper stage) reject_stages
      then (false, rejected status stage)
      else if mem_text (lower execution) default_reject_execution_statuses
          || (text_eq (lower execution) (codes "blocked")
              && not (is_expected_execution_guard execution reason))
      then (false, rejected_execution execution)
      else if not (is_blank_text (lower status)) && mem_text (lower status) accepted_statuses
      then (true, accepted_status status)
      else if not (is_blank_text (upper stage)) && mem_text (upper stage) accepted_stages
      then (true, accepted_stage stage)
      else if is_blank_text (lower status)
          && is_blank_text (upper stage)
          && is_empty (report_errors values payload)
          && not (env_bool rules.require_status false)
      then (true, report_exists)
      else (false, unaccepted status stage)

  unfoldable pub judged : Rules → Dict V → Bool × Reason
  judged rules payload =
      if not (is_empty (report_errors values payload))
        && not (env_bool rules.accept_with_errors false)
      then (
        false,
        errors (length (report_errors values payload))
            (text_or_nested values (codes "status") payload)
            (text_or_nested values (codes "stage") payload),
      )
      else after_notification rules payload (report_notification_failure values payload)

  -- `payload.get("summary", {})` has no `get`
  abbrev pub summary_is_bad : Dict V → Bool
  summary_is_bad payload = elim (lookup (codes "summary") payload) [
    | none ↦ false
    | some v ↦ elim (values.as_mapping v) [ none ↦ true | some d ↦ false ]
  ]

  -- `_is_accepted_report`; `none` is an exception, of `_report_status`
  unfoldable pub is_accepted_report : Rules → Dict V → Option (Bool × Reason)
  is_accepted_report rules payload =
      if summary_is_bad payload
        && not (
            has_error values (true_at values (codes "status") payload)
            && has_error values (true_at values (codes "stage") payload))
      then none
      else some (judged rules payload)
