-- ===== src/Examples/Recoveries.antt =====
-- The ledger of a recovery, on values that are texts, plans and objects.
use ibkrquant.Prelude.{
  ◌≡◌, refl, ap, Bool, true, false, List, [], ◌∷◌, Option, none, some, Text, codes, Dict, lookup,
  strip,
}
use ibkrquant.Recovery.Ledger.{
  Values, Plan, Continuity, RecoveryKit, ledger_of, plan_at, transition,
  build_recovery_state_ledger, apply_recovery_state_ledger,
}
use ibkrquant.Recovery.Ledger.Transition.{IsRecovery, apply-build_recovery_state_ledger}

mutual
  data Json : Type 0 where
    string : Text → Json
    plan_value : Plan → Json
    yes no_items verify_only : Json
    object : Members → Json

  data Members : Type 0 where
    end : Members
    entry : Text → Json → Members → Members

abbrev members : Dict Json → Members
members [] = end
members ((k, v) ∷ d) = entry k v (members d)

abbrev items : Members → Dict Json
items end = []
items (entry k v ms) = (k, v) ∷ items ms

items-members : (d : Dict Json) → items (members d) ≡ d
items-members [] = refl
items-members ((k, v) ∷ d) = ap (λ r. (k, v) ∷ r) (items-members d)

abbrev text_of : Json → Text
text_of (string t) = t
text_of _ = codes "value"

abbrev string_of : Json → Option Text
string_of (string t) = some t
string_of _ = none

abbrev mapping_of : Json → Option (Dict Json)
mapping_of (object ms) = some (items ms)
mapping_of _ = none

abbrev is_yes : Json → Bool
is_yes yes = true
is_yes _ = false

abbrev is_no_items : Json → Bool
is_no_items no_items = true
is_no_items _ = false

abbrev is_verify_only : Json → Bool
is_verify_only verify_only = true
is_verify_only _ = false

abbrev values : Values Json
values = record {
  text = text_of;
  as_string = string_of;
  as_mapping = mapping_of;
  is_true = is_yes;
  is_empty_list = is_no_items;
  is_verify_only_policy = is_verify_only;
  of_text = string;
  of_dict = λ d. object (members d);
}

abbrev read_plan : Dict Json → Option Plan
read_plan ((_, plan_value p) ∷ []) = some p
read_plan _ = none

-- The continuity of a target is frozen on the baseline b1.
abbrev kit : RecoveryKit Json
kit = record {
  plan_from_dict = read_plan;
  plan_to_dict = λ p. (codes "plan", plan_value p) ∷ [];
  build_live_continuity = λ v. some (record {
    state = codes "RECONCILE_ONLY";
    baseline_id = codes "b1";
    baseline_target_sha256 = codes "f0";
    fields = (codes "state", string (codes "RECONCILE_ONLY")) ∷ [];
    matches_target = λ target. true;
  });
}

laws : IsRecovery values kit
laws = record {
  string_back = λ t. refl;
  text_back = λ t. refl;
  mapping_back = λ d. ap some (items-members d);
  plan_back = λ p. refl;
}

abbrev plan : Plan
plan = record {
  recovery_id = codes "r1";
  candidate_sha256 = codes "aa";
  confirmation_sha256 = codes "bb";
  expected_live_continuity_state = codes "RECONCILE_ONLY";
  next_live_continuity_state = codes "ACTIVE_LKG";
  baseline_id = codes "b1";
  baseline_target_sha256 = codes "f0";
  expected_digests = (codes "cash_sha256", codes "cc") ∷ [];
}

abbrev verification : Dict Json
verification =
    (codes "schema_version", string (codes "ibkr_reconciliation_recovery_verification.v1"))
    ∷ (codes "recovery_id", string (codes "r1 "))
    ∷ (codes "candidate_sha256", string (codes "SHA256:AA"))
    ∷ (codes "confirmation_sha256", string (codes "bb"))
    ∷ (codes "ready_for_atomic_state_transition", yes)
    ∷ (codes "findings", no_items)
    ∷ (codes "transition_plan", object (entry (codes "plan") (plan_value plan) end))
    ∷ (codes "policy", verify_only)
    ∷ []

abbrev ledger : Dict Json
ledger = ledger_of values kit plan (codes "ibkr-svc")

abbrev target : Dict Json
target =
    (codes "platform_id", string (codes "IBKR"))
    ∷ (codes "service_name", string (codes "ibkr-svc"))
    ∷ (codes "live_continuity", object end)
    ∷ []

abbrev moved : Dict Json
moved =
    (codes "platform_id", string (codes "IBKR"))
    ∷ (codes "service_name", string (codes "ibkr-svc"))
    ∷ (codes "live_continuity", object (entry (codes "state") (string (codes "ACTIVE_LKG")) end))
    ∷ []

apply-build_recovery_state_ledger_example :
    (p : Plan) × (plan_at values kit verification ≡ some p)
    × ((t : Dict Json)
        → apply_recovery_state_ledger values kit t ledger
          ≡ transition values kit p (codes "ibkr-svc") t)
unfolding build_recovery_state_ledger ibkrquant.Recovery.Ledger.is_ready ibkrquant.Prelude.mem_text
    ibkrquant.Prelude.text_eq lookup plan_at ibkrquant.Recovery.Ledger.agrees_with_plan strip
    ibkrquant.Recovery.Ledger.plain_digest ibkrquant.Prelude.starts_with ibkrquant.Prelude.lower
    ibkrquant.Recovery.Ledger.is_service_name
apply-build_recovery_state_ledger_example =
    apply-build_recovery_state_ledger values kit laws verification (codes "ibkr-svc") ledger refl
