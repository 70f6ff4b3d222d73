-- ===== src/Reports/Matching.antt =====
-- scripts/execution_report_heartbeat.py and scripts/runtime_heartbeat_policy.py: the target that a report
-- is about.
use ibkrquant.Prelude.{
  Bool, ◌&&◌, ◌||◌, not, List, [], ◌∷◌, ◌++◌, Option, none, some, Text, codes, strip, lower,
  text_eq, mem_text, is_blank_text, is_empty, map, if◌then◌else◌, Dict, lookup,
}
use ibkrquant.Reports.{Values, mapping_at, true_at}

-- A normalised target, as far as it is read here.
pub record Target : Type 0 where
  pub service : Text
  pub strategy_profile : Text
  pub account_scope : Text

abbrev or_star : Text → Text
or_star t = if is_blank_text t then codes "*" else t

-- `target_key`
unfoldable pub target_key : Target → Text
target_key t =
    let service = lower (strip t.service) in
    if is_blank_text service
    then []
    else service
      ++ (codes "|"
          ++ (or_star (lower (strip t.strategy_profile))
              ++ (codes "|" ++ or_star (lower (strip t.account_scope)))))

-- `expected and actual != expected` does not hold
abbrev fits : Text → Text → Bool
fits expected actual = is_blank_text expected || text_eq actual expected

module _ {V : Type 0} (values : Values V) where
  -- `value is not None and str(value).strip()`, where null reads as an empty text
  abbrev pub text_in : Text → Dict V → Text
  text_in key d = elim (lookup key d) [ none ↦ [] | some v ↦ strip (values.text v) ]

  abbrev pub first_key : List Text → Dict V → Text → Text
  first_key [] d later = later
  first_key (k ∷ ks) d later =
      let rest = first_key ks d later in if is_blank_text (text_in k d) then rest else text_in k d

  -- `_first_value`
  unfoldable pub first_value : List (Dict V) → List Text → Text
  first_value [] keys = []
  first_value (d ∷ ds) keys = first_key keys d (first_value ds keys)

  -- `_payload_value`
  unfoldable pub payload_value : Dict V → List Text → Text
  payload_value payload keys = elim (mapping_at values (codes "runtime_target") payload) [
    | none ↦ first_value (payload ∷ []) keys
    | some target ↦ first_value (payload ∷ target ∷ []) keys
  ]

  unfoldable pub fits_target : Text → Text → Text → Target → Bool
  fits_target service strategy scope t =
      text_eq service (lower (strip t.service))
      && fits (lower (strip t.strategy_profile)) strategy
      && fits (lower (strip t.account_scope)) scope

  unfoldable pub first_fitting : Text → Text → Text → List Target → Option Text
  first_fitting service strategy scope [] = none
  first_fitting service strategy scope (t ∷ ts) =
      let rest = first_fitting service strategy scope ts in
      if fits_target service strategy scope t then some (target_key t) else rest

  -- `match_payload_target`, without the text of its reason
  unfoldable pub match_payload_target : Dict V → List Target → Option Text
  match_payload_target payload targets =
      first_fitting
        (lower (
          payload_value payload
            (codes "service_name" ∷ codes "service" ∷ codes "cloud_run_service" ∷ [])))
        (lower (
          payload_value payload
            (codes "strategy_profile" ∷ codes "strategy" ∷ codes "profile" ∷ [])))
        (lower (
          payload_value payload
            (codes "account_scope" ∷ codes "account_group" ∷ codes "account_region" ∷ [])))
        targets

  abbrev shown : Option V → Text
  shown none = []
  shown (some v) = strip (values.text v)

  -- `_payload_service_name`
  unfoldable pub payload_service_name : Dict V → Text
  payload_service_name payload = elim (true_at values (codes "service_name") payload) [
    | some v ↦ strip (values.text v)
    | none ↦ elim (mapping_at values (codes "runtime_target") payload) [
      | none ↦ []
      | some t ↦ shown (true_at values (codes "service_name") t)
    ]
  ]

  -- `_payload_account_scope`, of the keys that are left
  unfoldable pub account_scope_from : List Text → Dict V → Text
  account_scope_from [] payload = []
  account_scope_from (k ∷ ks) payload = elim (true_at values k payload) [
    | some v ↦ strip (values.text v)
    | none ↦ account_scope_from ks payload
  ]

  -- `RUNTIME_HEARTBEAT_REPORT_PLATFORM` and `RUNTIME_HEARTBEAT_ACCOUNT_SCOPE`, or nothing
  abbrev differs : Text → Text → Bool
  differs expected actual = not (is_blank_text expected) && not (text_eq (lower actual) expected)

  abbrev unmatched : Text → List Target → Option Text
  unmatched service targets =
      if not (is_empty targets) && mem_text service (map (λ t. strip t.service) targets)
      then none
      else some service

  abbrev by_target : Text → List Target → Option Text → Option Text
  by_target service targets none = unmatched service targets
  by_target service targets (some key) =
      if is_blank_text key then unmatched service targets else some key

  -- `_payload_matches`: the key or the service that a report counts for, if it matches
  unfoldable pub payload_matches : Text → Text → Dict V → List Text → List Target → Option Text
  payload_matches platform scope payload services targets =
      let service = payload_service_name payload in
      if differs (lower (strip platform)) (shown (true_at values (codes "platform") payload))
      then none
      else if differs (lower (strip scope)) (
          account_scope_from
            (codes "account_scope" ∷ codes "account_group" ∷ codes "account_region" ∷ []) payload)
      then none
      else if not (is_empty services) && not (mem_text service services)
      then none
      else by_target service targets (match_payload_target payload targets)
