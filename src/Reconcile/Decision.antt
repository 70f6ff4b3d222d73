-- ===== src/Reconcile/Decision.antt =====
-- application/broker_reconciliation.py: the candidate that is made of the observations.
pub mod Closed
use ibkrquant.Prelude.{
  ℕ, Bool, true, false, not, List, [], ◌∷◌, Option, none, some, Text, codes, strip, lower, text_eq,
  is_blank_text, is_empty, any, values, map, Dict, lookup, get_or, is_some,
}
use ibkrquant.Reconcile.Checked.{
  Checked, ok, refused, ◌>>=◌, ◌>>◌, require, digests_not_json, digests_not_an_object,
  digests_incomplete, no_baseline, incomplete_baseline, ledger_failed,
}
use ibkrquant.Reconcile.Observed.{PositionRecord, CashRecord, OrderRecord, ExecutionRecord}
use ibkrquant.Reconcile.Observed.Surfaces.{Observations, found}

-- `_EXPECTED_DIGEST_KEYS`
abbrev pub expected_digest_keys : List Text
expected_digest_keys =
    codes "account_scope_sha256"
    ∷ codes "positions_sha256"
    ∷ codes "cash_sha256"
    ∷ codes "open_orders_sha256"
    ∷ codes "recent_executions_sha256"
    ∷ codes "local_execution_ledger_sha256"
    ∷ []

-- What `json.loads` makes of a text; the values of an object as `str(value or "")`.
pub data Decoded : Type 0 where
  not_json not_object : Decoded
  object : Dict Text → Decoded

abbrev pub normalized_digests : Dict Text → Dict Text
normalized_digests d = map (λ key. (key, strip (get_or (lookup key d) []))) expected_digest_keys

abbrev pub complete_digests : Decoded → Checked (Option (Dict Text))
complete_digests not_json = refused digests_not_json
complete_digests not_object = refused digests_not_an_object
complete_digests (object d) = do
  require (not (any is_blank_text (values (normalized_digests d)))) digests_incomplete
  ok (some (normalized_digests d))

-- `_resolve_expected_digests`, of the environment's value
unfoldable pub resolve_expected_digests :
    (Text → Decoded) → Option Text → Checked (Option (Dict Text))
resolve_expected_digests decode none = ok none
resolve_expected_digests decode (some raw) = elim (is_blank_text (strip raw)) [
  | true ↦ ok none
  | false ↦ complete_digests (decode raw)
]

-- `live_continuity` of the runtime target, its attributes as texts
pub record Baseline : Type 0 where
  pub baseline_id : Text
  pub baseline_target_sha256 : Text

unfoldable pub continuity_fields : Option Baseline → Checked (Text × Text)
continuity_fields none = refused no_baseline
continuity_fields (some b) = do
  require (not (is_blank_text (strip b.baseline_id))) incomplete_baseline
  require (not (is_blank_text (lower (strip b.baseline_target_sha256)))) incomplete_baseline
  ok (strip b.baseline_id, lower (strip b.baseline_target_sha256))

-- The arguments of `build_broker_reconciliation_evidence`.
pub record EvidenceFields : Type 0 where
  pub platform_id : Text
  pub strategy_profile : Text
  pub account_scope_sha256 : Text
  pub baseline_id : Text
  pub baseline_target_sha256 : Text
  pub runtime_target_sha256 : Text
  pub observed_at : ℕ
  pub broker_connected : Bool
  pub account_identity_match : Bool
  pub positions_match : Bool
  pub cash_match : Bool
  pub open_orders_match : Bool
  pub recent_executions_match : Bool
  pub local_execution_ledger_match : Bool
  pub positions_sha256 : Text
  pub cash_sha256 : Text
  pub open_orders_sha256 : Text
  pub recent_executions_sha256 : Text
  pub local_execution_ledger_sha256 : Text

-- The arguments of `evaluate_broker_reconciliation_recovery` beside the evidence.
pub record Expected : Type 0 where
  pub now : ℕ
  pub platform_id : Text
  pub strategy_profile : Text
  pub account_scope_sha256 : Option Text
  pub baseline_id : Text
  pub runtime_target_sha256 : Text
  pub positions_sha256 : Option Text
  pub cash_sha256 : Option Text
  pub open_orders_sha256 : Option Text
  pub recent_executions_sha256 : Option Text
  pub local_execution_ledger_sha256 : Option Text

-- The package's digests of the observations, the digest and the length of the local ledger, the
-- evidence and the findings about it.
pub record DecisionKit (F E B : Type 0) : Type 0 where
  pub of_scope : List Text → Text
  pub of_positions : List (PositionRecord F) → Text
  pub of_cash : List (CashRecord F) → Text
  pub of_orders : List (OrderRecord F) → Text
  pub of_executions : List (ExecutionRecord F) → Text
  pub recent_ledger : Option (Text × ℕ)
  pub evidence : EvidenceFields → Checked E
  pub evaluate : E → Expected → List B

-- `IBKRReconciliationCandidate`
pub record RecoveryCandidate (E B : Type 0) : Type 0 where
  pub evidence : E
  pub recovery_blockers : List B
  pub expected_digests_configured : Bool
  pub execution_ledger_records_count : ℕ

abbrev pub permits_active_lkg : {E B : Type 0} → RecoveryCandidate E B → Bool
permits_active_lkg c = is_empty c.recovery_blockers

-- `expected_digests[key]`, and `(expected_digests or {}).get(key)`
abbrev pub digest_at : Text → Dict Text → Text
digest_at key d = get_or (lookup key d) []

abbrev pub expected_at : Text → Option (Dict Text) → Option Text
expected_at key none = none
expected_at key (some d) = lookup key d

-- `matches`
unfoldable pub matches : Option (Dict Text) → Text → Text → Bool
matches none key actual = false
matches (some d) key actual = text_eq (digest_at key d) actual

module _ {F E B : Type 0} (kit : DecisionKit F E B) where
  abbrev pub evidence_fields :
      Observations F → Text → Text → ℕ → Option (Dict Text) → Text → Text × Text → EvidenceFields
  evidence_fields o platform profile at d ledger (baseline, target) = record {
    platform_id = platform;
    strategy_profile = profile;
    account_scope_sha256 = kit.of_scope o.account_scope;
    baseline_id = baseline;
    baseline_target_sha256 = target;
    runtime_target_sha256 = target;
    observed_at = at;
    broker_connected = true;
    account_identity_match = o.account_identity_match;
    positions_match = matches d (codes "positions_sha256") (kit.of_positions o.positions);
    cash_match = matches d (codes "cash_sha256") (kit.of_cash o.cash);
    open_orders_match = matches d (codes "open_orders_sha256") (kit.of_orders o.open_orders);
    recent_executions_match =
        matches d (codes "recent_executions_sha256") (kit.of_executions o.recent_executions);
    local_execution_ledger_match = matches d (codes "local_execution_ledger_sha256") ledger;
    positions_sha256 = kit.of_positions o.positions;
    cash_sha256 = kit.of_cash o.cash;
    open_orders_sha256 = kit.of_orders o.open_orders;
    recent_executions_sha256 = kit.of_executions o.recent_executions;
    local_execution_ledger_sha256 = ledger;
  }

  abbrev pub expected_fields : Text → Text → ℕ → Option (Dict Text) → Text × Text → Expected
  expected_fields platform profile now d (baseline, target) = record {
    now = now;
    platform_id = platform;
    strategy_profile = profile;
    account_scope_sha256 = expected_at (codes "account_scope_sha256") d;
    baseline_id = baseline;
    runtime_target_sha256 = target;
    positions_sha256 = expected_at (codes "positions_sha256") d;
    cash_sha256 = expected_at (codes "cash_sha256") d;
    open_orders_sha256 = expected_at (codes "open_orders_sha256") d;
    recent_executions_sha256 = expected_at (codes "recent_executions_sha256") d;
    local_execution_ledger_sha256 = expected_at (codes "local_execution_ledger_sha256") d;
  }

  -- `build_reconciliation_candidate`, at the times that its two readings of the clock give
  unfoldable pub build_reconciliation_candidate :
      (Text → Decoded)
      → Option Text
      → Observations F
      → Option Baseline
      → Text
      → Text
      → ℕ
      → ℕ
      → Checked (RecoveryCandidate E B)
  build_reconciliation_candidate decode env o target platform profile observed_at now = do
    d ← resolve_expected_digests decode env
    ledger ← found kit.recent_ledger ledger_failed
    baseline ← continuity_fields target
    evidence ← kit.evidence (evidence_fields o platform profile observed_at d ledger.0 baseline)
    ok (record {
      evidence = evidence;
      recovery_blockers = kit.evaluate evidence (expected_fields platform profile now d baseline);
      expected_digests_configured = is_some d;
      execution_ledger_records_count = ledger.1;
    })
