-- ===== src/Reports.antt =====
-- scripts/execution_report_heartbeat.py: is there an acceptable report for all that was due?
pub mod Accepted
pub mod Matching
pub mod Verdict
pub mod Kept
pub mod Answered
use ibkrquant.Prelude.{
  ℕ, Bool, true, false, ◌&&◌, ◌||◌, not, List, [], ◌∷◌, Option, none, some, Text, codes, strip,
  lower, upper, text_eq, mem_text, starts_with, is_blank_text, is_empty, keep, map, any, length,
  ◌==◌, if◌then◌else◌, Dict, lookup,
}

-- Values of JSON: `bool(value)`, `str(value)`, a mapping, a list or a string if it is one, and
-- `value is False`, `value is True`.
pub record Values (V : Type 0) : Type 0 where
  pub truthy : V → Bool
  pub text : V → Text
  pub as_mapping : V → Option (Dict V)
  pub as_list : V → Option (List V)
  pub as_string : V → Option Text
  pub is_false : V → Bool
  pub is_true : V → Bool

-- The variables of the environment that judge a report.
pub record Rules : Type 0 where
  pub accept_statuses : Option Text
  pub reject_statuses : Option Text
  pub accept_stages : Option Text
  pub reject_stages : Option Text
  pub accept_with_errors : Option Text
  pub require_status : Option Text

-- the reasons that are shown with a report
pub data Reason : Type 0 where
  errors : ℕ → Text → Text → Reason
  not_acknowledged delivery_failed report_exists : Reason
  rejected unaccepted : Text → Text → Reason
  rejected_execution accepted_status accepted_stage : Text → Reason

abbrev is_separator : ℕ → Bool
is_separator c = c == b',' || c == b';' || c == 10

-- the parts between separators; the first is what was read of it so far
unfoldable pub split_on : Text → List Text
split_on [] = [] ∷ []
split_on (c ∷ t) = first c (split_on t)
  where
    first : ℕ → List Text → List Text
    first c [] = (c ∷ []) ∷ []
    first c (p ∷ ps) = if is_separator c then [] ∷ p ∷ ps else (c ∷ p) ∷ ps

-- `_split_values`
unfoldable pub split_values : Option Text → List Text
split_values none = []
split_values (some raw) = keep (λ t. not (is_blank_text t)) (map strip (split_on raw))

-- `_env_bool`
unfoldable pub env_bool : Option Text → Bool → Bool
env_bool none default = default
env_bool (some raw) default =
    if is_blank_text (lower (strip raw))
    then default
    else mem_text (lower (strip raw))
        (codes "1" ∷ codes "true" ∷ codes "yes" ∷ codes "y" ∷ codes "on" ∷ [])

module _ {V : Type 0} (values : Values V) where
  abbrev pub mapping_at : Text → Dict V → Option (Dict V)
  mapping_at key d = elim (lookup key d) [ none ↦ none | some v ↦ values.as_mapping v ]

  -- `d.get(key)`, if it is true
  abbrev pub true_at : Text → Dict V → Option V
  true_at key d = elim (lookup key d) [
    | none ↦ none
    | some v ↦ if values.truthy v then some v else none
  ]

  abbrev pub items_at : Text → Dict V → List V
  items_at key d = elim (lookup key d) [
    | none ↦ []
    | some v ↦ elim (values.as_list v) [ none ↦ [] | some l ↦ l ]
  ]

  abbrev pub single : Option V → List V
  single none = []
  single (some v) = v ∷ []

  -- `_report_errors`
  unfoldable pub report_errors : Dict V → List V
  report_errors payload =
      if not (is_empty (items_at (codes "errors") payload))
      then items_at (codes "errors") payload
      else if not (is_empty (nested (mapping_at (codes "error_summary") payload)))
      then nested (mapping_at (codes "error_summary") payload)
      else single (true_at (codes "error") payload)
    where
      nested : Option (Dict V) → List V
      nested none = []
      nested (some d) = items_at (codes "errors") d

  abbrev pub summary_of : Dict V → Dict V
  summary_of payload = elim (mapping_at (codes "summary") payload) [ none ↦ [] | some d ↦ d ]

  -- `str(payload.get(key) or summary.get(key) or "").strip()`
  abbrev pub text_or_nested : Text → Dict V → Text
  text_or_nested key payload = elim (true_at key payload) [
    | some v ↦ strip (values.text v)
    | none ↦ elim (true_at key (summary_of payload)) [ none ↦ [] | some v ↦ strip (values.text v) ]
  ]

  abbrev unacknowledged : Option (Dict V) → Bool
  unacknowledged none = false
  unacknowledged (some d) = elim (lookup (codes "all_acknowledged") d) [
    | none ↦ false
    | some v ↦ values.is_false v
  ]

  abbrev suppressed : Dict V → Bool
  suppressed d = elim (lookup (codes "notification_suppressed") d) [
    | none ↦ false
    | some v ↦ values.is_true v
  ]

  abbrev pub has_error : Option V → Bool
  has_error none = false
  has_error (some v) = true

  -- the tests of one scope of `_report_notification_failure`, before those of the next
  abbrev pub scope_failure : Dict V → Option Reason → Option Reason
  scope_failure scope later =
      if unacknowledged (mapping_at (codes "notification_delivery_summary") scope)
      then some not_acknowledged
      else if has_error (true_at (codes "notification_error") scope) && not (suppressed scope)
      then some delivery_failed
      else later

  unfoldable pub report_notification_failure : Dict V → Option Reason
  report_notification_failure payload =
      scope_failure payload (elim (mapping_at (codes "summary") payload) [
        | none ↦ none
        | some s ↦ scope_failure s none
      ])

  -- `_report_execution_backend`
  unfoldable pub report_execution_backend : Dict V → Text
  report_execution_backend payload = elim (lookup (codes "execution_backend") payload) [
    | none ↦ codes "unknown"
    | some v ↦ elim (values.as_string v) [
      | none ↦ codes "unknown"
      | some t ↦
          if mem_text t (codes "gateway" ∷ codes "quantconnect" ∷ []) then t else codes "unknown"
    ]
  ]
