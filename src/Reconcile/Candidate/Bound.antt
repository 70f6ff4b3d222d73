-- ===== src/Reconcile/Candidate/Bound.antt =====
-- application/broker_reconciliation_candidate.py: a candidate that was built is validated.
use ibkrquant.Prelude.{
  ◌≡◌, sym, ◌∙◌, List, [], some, some-injective, Text, codes, text_eq, true, map, sorted, get_or,
  text_eq_iff, Dict, lookup, lookup-insert,
}
use mathlib.Core.Path.{subst}
use ibkrquant.Reconcile.Checked.{ok, >>=-ok, require-ok, bind-ok, require-true}
use ibkrquant.Reconcile.Sources.{SourceReceiptExpectation}
use ibkrquant.Reconcile.Sources.Records.{RawRecord, raw_text}
use ibkrquant.Reconcile.Candidate.{
  Candidate, CandidateKit, Given, same_list, normalized_candidate, has_members, sealed_payload,
  calculate_source_receipts_sha256, build_reconciliation_candidate_v2,
  validate_reconciliation_candidate_sources,
}

-- How the package's candidates and their payloads go together: the texts of a candidate stand in its
-- payload under their names, and a candidate that was read is read back as it was.
pub record IsCandidateKit {C V : Type 0} (kit : CandidateKit C V) (of_texts : List Text → V)
    : Type 0 where
  pub reads_version :
      (d : Dict V) (c : Candidate C)
      → kit.from_dict d ≡ ok c
      → lookup (codes "schema_version") d ≡ some (kit.of_text c.schema_version)
  pub reads_profile :
      (d : Dict V) (c : Candidate C)
      → kit.from_dict d ≡ ok c
      → lookup (codes "strategy_profile") d ≡ some (kit.of_text c.strategy_profile)
  pub reads_evidence :
      (d : Dict V) (c : Candidate C)
      → kit.from_dict d ≡ ok c
      → lookup (codes "source_evidence_sha256") d ≡ some (of_texts c.source_evidence_sha256)
  pub reads_root :
      (d : Dict V) (c : Candidate C) (root : Text)
      → kit.from_dict d ≡ ok c
      → lookup (codes "source_receipts_sha256") d ≡ some (kit.of_text root)
      → c.source_receipts_sha256 ≡ root
  pub writes_profile :
      (c : Candidate C)
      → lookup (codes "strategy_profile") (kit.to_dict c) ≡ some (kit.of_text c.strategy_profile)
  pub writes_evidence :
      (c : Candidate C)
      → lookup (codes "source_evidence_sha256") (kit.to_dict c)
        ≡ some (of_texts c.source_evidence_sha256)
  pub text_injective : (s t : Text) → kit.of_text s ≡ kit.of_text t → s ≡ t
  pub texts_injective : (s t : List Text) → of_texts s ≡ of_texts t → s ≡ t
  pub back :
      (d : Dict V) (c : Candidate C) → kit.from_dict d ≡ ok c → kit.from_dict (kit.to_dict c) ≡ ok c

module _ {C V : Type 0} (kit : CandidateKit C V) (of_texts : List Text → V)
    (laws : IsCandidateKit kit of_texts) where
  -- What the payload of a bound candidate holds.
  sealed-lookup :
      (c : Candidate C) (root : Text)
      → (lookup (codes "schema_version") (sealed_payload kit c root) ≡ some (kit.of_text kit.v2))
        × (lookup (codes "source_receipts_sha256") (sealed_payload kit c root)
            ≡ some (kit.of_text root))
        × (lookup (codes "strategy_profile") (sealed_payload kit c root)
            ≡ lookup (codes "strategy_profile") (kit.to_dict c))
        × (lookup (codes "source_evidence_sha256") (sealed_payload kit c root)
            ≡ lookup (codes "source_evidence_sha256") (kit.to_dict c))
  unfolding text_eq
  sealed-lookup c root =
      (simp lookup-insert, simp lookup-insert, simp lookup-insert, simp lookup-insert)

  sealed-fields :
      (c c' : Candidate C) (root : Text)
      → kit.from_dict (sealed_payload kit c root) ≡ ok c'
      → (c'.schema_version ≡ kit.v2)
        × (c'.source_receipts_sha256 ≡ root)
        × (c'.strategy_profile ≡ c.strategy_profile)
        × (c'.source_evidence_sha256 ≡ c.source_evidence_sha256)
  sealed-fields c c' root h =
      let d = sealed_payload kit c root in
      let (version, bound, profile, evidence) = sealed-lookup c root in
      (
        laws.text_injective _ _ (some-injective _ _ (sym (laws.reads_version d c' h) ∙ version)),
        laws.reads_root d c' root h bound,
        laws.text_injective _ _ (
            some-injective _ _ (sym (laws.reads_profile d c' h) ∙ profile ∙ laws.writes_profile c)),
        laws.texts_injective _ _ (
            some-injective _ _
              (sym (laws.reads_evidence d c' h) ∙ evidence ∙ laws.writes_evidence c)),
      )

  -- A candidate that was built of records and expectations is validated with the same ones, and comes
  -- out as it is. The package's candidates and payloads go together as described.
  pub validate-build_reconciliation_candidate_v2 :
      (given : Given C V) (records : List RawRecord) (expectations : List SourceReceiptExpectation)
      (bound : Candidate C)
      → build_reconciliation_candidate_v2 kit given records expectations ≡ ok bound
      → validate_reconciliation_candidate_sources kit bound records expectations ≡ ok bound
  unfolding build_reconciliation_candidate_v2 validate_reconciliation_candidate_sources
  validate-build_reconciliation_candidate_v2 given records expectations bound h =
      let (c, _, h1) = >>=-ok (normalized_candidate kit given) _ bound h in
      let (_, h2) = require-ok (text_eq c.schema_version kit.v1) _ _ bound h1 in
      let (root, digest, h3) =
        >>=-ok (calculate_source_receipts_sha256 kit records c.strategy_profile expectations) _
          bound h2 in
      let (members, h4) = require-ok (has_members kit c records) _ _ bound h3 in
      let (version, is_root, profile, evidence) = sealed-fields c bound root h4 in
      let digest' =
        subst (λ p. calculate_source_receipts_sha256 kit records p expectations ≡ ok root)
          (sym profile) digest in
      let members' : has_members kit bound records ≡ true =
        subst
          (λ ts.
            same_list (sorted (map (λ r. get_or (raw_text (codes "evidence_sha256") r) []) records))
              (sorted ts)
            ≡ true)
          (sym evidence) members in
      bind-ok (kit.from_dict (kit.to_dict bound)) _ bound
        (laws.back (sealed_payload kit c root) bound h4)
      ∙ require-true (text_eq bound.schema_version kit.v2) _ _
          ((text_eq_iff bound.schema_version kit.v2).1 version)
      ∙ bind-ok (calculate_source_receipts_sha256 kit records bound.strategy_profile expectations) _
          root digest'
      ∙ require-true (has_members kit bound records) _ _ members'
      ∙ require-true (text_eq root bound.source_receipts_sha256) _ _
          ((text_eq_iff root bound.source_receipts_sha256).1 (sym is_root))
