-- ===== src/Recovery/Ledger.antt =====
-- scripts/reconciliation_recovery_state_ledger.py: the ledger that allows one transition of a runtime
-- target.
pub mod Transition
use ibkrquant.Prelude.{
  ℕ, zero, suc, Bool, true, false, ◌&&◌, not, List, [], ◌∷◌, Option, none, some, Text, codes, strip,
  lower, text_eq, starts_with, mem_text, all, keys, length, leb, is_blank_text, Dict, lookup,
  insert, same_set, if◌then◌else◌,
}

-- The values of JSON as the module reads and makes them.
pub record Values (V : Type 0) : Type 0 where
  -- `str(value or "")`
  pub text : V → Text
  -- `isinstance(value, str)` and `isinstance(value, Mapping)`
  pub as_string : V → Option Text
  pub as_mapping : V → Option (Dict V)
  -- `value is True`, `value == []`, and `value == expected_policy`
  pub is_true : V → Bool
  pub is_empty_list : V → Bool
  pub is_verify_only_policy : V → Bool
  pub of_text : Text → V
  pub of_dict : Dict V → V

-- `ReconciliationRecoveryTransitionPlan`
pub record Plan : Type 0 where
  pub recovery_id : Text
  pub candidate_sha256 : Text
  pub confirmation_sha256 : Text
  pub expected_live_continuity_state : Text
  pub next_live_continuity_state : Text
  pub baseline_id : Text
  pub baseline_target_sha256 : Text
  pub expected_digests : Dict Text

-- What is read of `build_live_continuity`.
pub record Continuity (V : Type 0) : Type 0 where
  pub state : Text
  pub baseline_id : Text
  pub baseline_target_sha256 : Text
  -- `to_dict()`
  pub fields : Dict V
  -- `assert_matches_target`
  pub matches_target : Dict V → Bool

-- The calls of `quant_platform_kit`; `none` is an exception.
pub record RecoveryKit (V : Type 0) : Type 0 where
  pub plan_from_dict : Dict V → Option Plan
  pub plan_to_dict : Plan → Dict V
  pub build_live_continuity : Option V → Option (Continuity V)

-- Goes on if the test holds, and raises otherwise.
abbrev pub check {ℓ} : {A : Type ℓ} → Bool → Option A → Option A
check b x = if b then x else none

abbrev pub bind {ℓ κ} : {A : Type ℓ} {B : Type κ} → Option A → (A → Option B) → Option B
bind none g = none
bind (some a) g = g a

abbrev drop_count : ℕ → Text → Text
drop_count zero t = t
drop_count (suc n) [] = []
drop_count (suc n) (c ∷ t) = drop_count n t

-- `str(digest or "").strip().lower().removeprefix("sha256:")`
unfoldable pub plain_digest : Text → Text
plain_digest digest =
    let t = lower (strip digest) in if starts_with t (codes "sha256:") then drop_count 7 t else t

abbrev required_of_verification : List Text
required_of_verification =
    codes "schema_version"
    ∷ codes "recovery_id"
    ∷ codes "candidate_sha256"
    ∷ codes "confirmation_sha256"
    ∷ codes "ready_for_atomic_state_transition"
    ∷ codes "findings"
    ∷ codes "transition_plan"
    ∷ codes "policy"
    ∷ []

abbrev pub required_of_ledger : List Text
required_of_ledger =
    codes "schema_version"
    ∷ codes "recovery_id"
    ∷ codes "service_name"
    ∷ codes "transition_plan"
    ∷ []

abbrev pub ledger_schema : Text
ledger_schema = codes "ibkr_reconciliation_recovery_state_ledger.v1"

-- the tests of `_ledger_service_name` on a text
unfoldable pub is_service_name : Text → Bool
is_service_name name = text_eq name (strip name) && leb 3 (length name) && leb (length name) 127

module _ {V : Type 0} (values : Values V) (kit : RecoveryKit V) where
  -- `str(payload.get(key) or "").strip()`
  abbrev pub text_at : Text → Dict V → Text
  text_at key d = elim (lookup key d) [ none ↦ [] | some v ↦ strip (values.text v) ]

  abbrev pub has : (V → Bool) → Text → Dict V → Bool
  has test key d = elim (lookup key d) [ none ↦ false | some v ↦ test v ]

  abbrev pub is_text : Text → V → Bool
  is_text t v = elim (values.as_string v) [ none ↦ false | some s ↦ text_eq s t ]

  -- `_ledger_service_name`
  unfoldable pub ledger_service_name : Dict V → Option Text
  ledger_service_name ledger =
      bind (lookup (codes "service_name") ledger)
        λ v. bind (values.as_string v) λ name. check (is_service_name name) (some name)

  -- `ReconciliationRecoveryTransitionPlan.from_dict(payload.get("transition_plan"))`
  unfoldable pub plan_at : Dict V → Option Plan
  plan_at d =
      bind (lookup (codes "transition_plan") d) λ v. bind (values.as_mapping v) kit.plan_from_dict

  -- the tests of a verification before its plan is read
  unfoldable pub is_ready : Dict V → Bool
  is_ready verification =
      same_set (keys verification) required_of_verification
      && has (is_text (codes "ibkr_reconciliation_recovery_verification.v1"))
          (codes "schema_version") verification
      && has values.is_true (codes "ready_for_atomic_state_transition") verification
      && has values.is_empty_list (codes "findings") verification
      && has values.is_verify_only_policy (codes "policy") verification

  -- the tests of a verification against its plan
  unfoldable pub agrees_with_plan : Dict V → Plan → Bool
  agrees_with_plan verification plan =
      text_eq (text_at (codes "recovery_id") verification) plan.recovery_id
      && text_eq (plain_digest (text_at (codes "candidate_sha256") verification))
          plan.candidate_sha256
      && text_eq (plain_digest (text_at (codes "confirmation_sha256") verification))
          plan.confirmation_sha256

  unfoldable pub ledger_of : Plan → Text → Dict V
  ledger_of plan service_name =
      (codes "schema_version", values.of_text ledger_schema)
      ∷ (codes "recovery_id", values.of_text plan.recovery_id)
      ∷ (codes "service_name", values.of_text service_name)
      ∷ (codes "transition_plan", values.of_dict (kit.plan_to_dict plan))
      ∷ []

  -- `build_recovery_state_ledger`
  unfoldable pub build_recovery_state_ledger : Dict V → Text → Option (Dict V)
  build_recovery_state_ledger verification service_name = check (is_ready verification) (
      bind (plan_at verification) λ plan.
        check (agrees_with_plan verification plan)
          (check (is_service_name service_name) (some (ledger_of plan service_name))))

  -- the tests of a target, and the transition
  unfoldable pub is_for_target : Plan → Text → Dict V → Continuity V → Bool
  is_for_target plan service_name target c =
      text_eq (lower (text_at (codes "platform_id") target)) (codes "ibkr")
      && text_eq (text_at (codes "service_name") target) service_name
      && c.matches_target target
      && text_eq c.state plan.expected_live_continuity_state
      && text_eq c.baseline_id plan.baseline_id
      && text_eq c.baseline_target_sha256 plan.baseline_target_sha256

  unfoldable pub next_target : Plan → Dict V → Continuity V → Dict V
  next_target plan target c =
      insert (codes "live_continuity")
        (values.of_dict
          (insert (codes "state") (values.of_text plan.next_live_continuity_state) c.fields))
        target

  -- what a plan for this service does to a target
  unfoldable pub transition : Plan → Text → Dict V → Option (Dict V × Dict Text)
  transition plan service_name target =
      bind (kit.build_live_continuity (lookup (codes "live_continuity") target)) λ c.
        check (is_for_target plan service_name target c)
          (some (next_target plan target c, plan.expected_digests))

  -- `apply_recovery_state_ledger`
  unfoldable pub apply_recovery_state_ledger : Dict V → Dict V → Option (Dict V × Dict Text)
  apply_recovery_state_ledger target ledger = check (same_set (keys ledger) required_of_ledger) (
      check (has (is_text ledger_schema) (codes "schema_version") ledger) (
        bind (ledger_service_name ledger) λ service_name. bind (plan_at ledger) λ plan.
          check (text_eq (text_at (codes "recovery_id") ledger) plan.recovery_id)
            (transition plan service_name target)))

  -- the choice of `apply_recovery_state_ledger_from_env`: no ledger, or the one that was read
  unfoldable pub apply_recovery_state_ledger_from_env :
      Dict V → Option (Dict V) → Option (Dict V × Option (Dict Text))
  apply_recovery_state_ledger_from_env target none = some (target, none)
  apply_recovery_state_ledger_from_env target (some ledger) =
      bind (ledger_service_name ledger) λ service_name.
        if not (text_eq (text_at (codes "service_name") target) service_name)
        then some (target, none)
        else bind (apply_recovery_state_ledger target ledger) (λ r. some (r.0, some r.1))
