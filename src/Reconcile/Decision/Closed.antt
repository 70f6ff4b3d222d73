-- ===== src/Reconcile/Decision/Closed.antt =====
-- application/broker_reconciliation.py: a candidate without blockers rests on expected digests.
use ibkrquant.Prelude.{
  ℕ, ◌≡◌, refl, ap, ◌∙◌, true, Option, none, some, Text, codes, text_eq→path, Dict, lookup,
  is_empty,
}
use ibkrquant.Reconcile.Checked.{Checked, ok, >>=-ok, ok-injective}
use ibkrquant.Reconcile.Checked
use ibkrquant.Reconcile.Observed.Surfaces.{Observations, found}
use ibkrquant.Reconcile.Observed.Collected.{found-some}
use ibkrquant.Reconcile.Decision.{
  Decoded, Baseline, EvidenceFields, Expected, DecisionKit, RecoveryCandidate, permits_active_lkg,
  digest_at, matches, evidence_fields, expected_fields, continuity_fields, resolve_expected_digests,
  build_reconciliation_candidate,
}

-- Evidence of a broker that is the right one and matches on every surface, for the expected accounts.
pub record IsClear (i : EvidenceFields) (x : Expected) : Type 0 where
  pub identity : i.account_identity_match ≡ true
  pub positions : i.positions_match ≡ true
  pub cash : i.cash_match ≡ true
  pub orders : i.open_orders_match ≡ true
  pub executions : i.recent_executions_match ≡ true
  pub ledger : i.local_execution_ledger_match ≡ true
  pub scope : x.account_scope_sha256 ≡ some i.account_scope_sha256

-- The package reports a finding about any other evidence.
abbrev pub ReportsAll : {F E B : Type 0} → DecisionKit F E B → Type 0
ReportsAll kit =
    (i : EvidenceFields) (x : Expected) (e : _)
    → kit.evidence i ≡ ok e
    → is_empty (kit.evaluate e x) ≡ true
    → IsClear i x

matches-eq :
    (d : Option (Dict Text)) (key actual : Text)
    → matches d key actual ≡ true
    → (e : Dict Text) × (d ≡ some e) × (digest_at key e ≡ actual)
unfolding matches
matches-eq none key actual h = cc
matches-eq (some e) key actual h = (e, refl, text_eq→path (digest_at key e) actual h)

-- each surface has the digest that is expected
pub record IsExpected {F E B : Type 0} (kit : DecisionKit F E B) (d : Dict Text)
    (o : Observations F) : Type 0 where
  pub scope : lookup (codes "account_scope_sha256") d ≡ some (kit.of_scope o.account_scope)
  pub positions : digest_at (codes "positions_sha256") d ≡ kit.of_positions o.positions
  pub cash : digest_at (codes "cash_sha256") d ≡ kit.of_cash o.cash
  pub orders : digest_at (codes "open_orders_sha256") d ≡ kit.of_orders o.open_orders
  pub executions :
      digest_at (codes "recent_executions_sha256") d ≡ kit.of_executions o.recent_executions
  pub ledger :
      (l : Text × ℕ) × (kit.recent_ledger ≡ some l)
      × (digest_at (codes "local_execution_ledger_sha256") d ≡ l.0)

matches-some :
    (e : Dict Text) (key actual : Text)
    → matches (some e) key actual ≡ true
    → digest_at key e ≡ actual
unfolding matches
matches-some e key actual h = text_eq→path (digest_at key e) actual h

module _ {F E B : Type 0} (kit : DecisionKit F E B) where
  clear-IsExpected :
      (o : Observations F) (platform profile : Text) (at now : ℕ) (d : Option (Dict Text))
      (ledger : Text × ℕ) (b : Text × Text)
      → kit.recent_ledger ≡ some ledger
      → IsClear
          (evidence_fields kit o platform profile at d ledger.0 b)
          (expected_fields kit platform profile now d b)
      → (e : Dict Text) × (d ≡ some e) × IsExpected kit e o
  clear-IsExpected o platform profile at now none ledger (b, t) l c =
      absurd (none-matches (c.positions))
    where
      none-matches :
          matches none (codes "positions_sha256") (kit.of_positions o.positions) ≡ true → ⊥
      none-matches h =
          let (e, absent, _) =
            matches-eq none (codes "positions_sha256") (kit.of_positions o.positions) h in
          cc
  clear-IsExpected o platform profile at now (some e) ledger (b, t) l c = (
    e,
    refl,
    record {
      scope = c.scope;
      positions = matches-some e _ _ c.positions;
      cash = matches-some e _ _ c.cash;
      orders = matches-some e _ _ c.orders;
      executions = matches-some e _ _ c.executions;
      ledger = (ledger, l, matches-some e _ _ c.ledger);
    },
  )

  -- Where the package reports all other evidence, a candidate that permits the active baseline rests on
  -- digests that the environment configures: the digest of the selected accounts, of each surface and of
  -- the local ledger is the one that is expected. Without such digests none permits it.
  pub build_reconciliation_candidate-IsExpected :
      (decode : Text → Decoded) (env : Option Text) (o : Observations F) (target : Option Baseline)
      (platform profile : Text) (at now : ℕ) (c : RecoveryCandidate E B)
      → ReportsAll kit
      → build_reconciliation_candidate kit decode env o target platform profile at now ≡ ok c
      → permits_active_lkg c ≡ true
      → (d : Dict Text) × (resolve_expected_digests decode env ≡ ok (some d)) × IsExpected kit d o
  unfolding build_reconciliation_candidate
  build_reconciliation_candidate-IsExpected decode env o target platform profile at now c reports h
        permits =
      let (d, resolved, h1) = >>=-ok (resolve_expected_digests decode env) _ c h in
      let (ledger, read, h2) = >>=-ok (found kit.recent_ledger Checked.ledger_failed) _ c h1 in
      let (b, _, h3) = >>=-ok (continuity_fields target) _ c h2 in
      let i = evidence_fields kit o platform profile at d ledger.0 b in
      let x = expected_fields kit platform profile now d b in
      let (e, made, h4) = >>=-ok (kit.evidence i) _ c h3 in
      let no_blockers : is_empty (kit.evaluate e x) ≡ true =
        ap (λ r. is_empty (r.recovery_blockers)) (ok-injective _ c h4) ∙ permits in
      let (digests, some_digests, expected) =
        clear-IsExpected o platform profile at now d ledger b
          (found-some kit.recent_ledger Checked.ledger_failed ledger read)
          (reports i x e made no_blockers) in
      (digests, resolved ∙ ap ok some_digests, expected)
