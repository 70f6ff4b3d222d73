-- ===== src/Reconcile/Candidate.antt =====
-- application/broker_reconciliation_candidate.py: the digest of the source records, and the candidate
-- that is bound to it.
pub mod Digest
pub mod Bound
use ibkrquant.Prelude.{
  Bool, true, false, ◌&&◌, List, [], ◌∷◌, map, Text, codes, text_eq, sorted, get_or, Dict, insert,
}
use ibkrquant.Reconcile.Checked.{
  Checked, ok, refused, ◌>>=◌, ◌>>◌, require, not_v1, not_v2, members_mismatch, binding_mismatch,
}
use ibkrquant.Reconcile.Sources.{SourceReceiptExpectation}
use ibkrquant.Reconcile.Sources.Records.{
  RawRecord, raw_text, source_record_key, sort_by, accepted_records, versioned,
}

-- `BrokerReconciliationBaselineCandidate`, with its other fields as `C`.
pub record Candidate (C : Type 0) : Type 0 where
  pub schema_version : Text
  pub strategy_profile : Text
  pub source_evidence_sha256 : List Text
  pub source_receipts_sha256 : Text
  pub others : C

-- The package's candidates, whose payloads are dicts of JSON values, with its two version texts, and
-- `json.dumps` and `hashlib.sha256` on their way to a text.
pub record CandidateKit (C V : Type 0) : Type 0 where
  pub from_dict : Dict V → Checked (Candidate C)
  pub to_dict : Candidate C → Dict V
  pub of_text : Text → V
  pub candidate_sha256 : Dict V → Text
  pub v1 : Text
  pub v2 : Text
  pub dumps : List (Dict Text) → Text
  pub sha256 : Text → Text

-- `candidate` as it is given
pub data Given (C V : Type 0) : Type 0 where
  candidate : Candidate C → Given C V
  payload : Dict V → Given C V

abbrev pub same_list : List Text → List Text → Bool
same_list [] [] = true
same_list (s ∷ ss) (t ∷ ts) = text_eq s t && same_list ss ts
same_list _ _ = false

abbrev zero_digest : Text
zero_digest = codes "0000000000000000000000000000000000000000000000000000000000000000"

module _ {C V : Type 0} (kit : CandidateKit C V) where
  -- what is serialised for records that are accepted
  abbrev pub serialized : List (Dict Text) → Text
  serialized rs = kit.dumps (map versioned (sort_by source_record_key rs))

  unfoldable pub canonical_source_receipt_records_json :
      List RawRecord → Text → List SourceReceiptExpectation → Checked Text
  canonical_source_receipt_records_json records strategy_profile expectations = do
    rs ← accepted_records records strategy_profile expectations
    ok (serialized rs)

  unfoldable pub calculate_source_receipts_sha256 :
      List RawRecord → Text → List SourceReceiptExpectation → Checked Text
  calculate_source_receipts_sha256 records strategy_profile expectations = do
    json ← canonical_source_receipt_records_json records strategy_profile expectations
    ok (kit.sha256 json)

  -- `_validate_evidence_members`, on records that are accepted, whose digests are strings
  abbrev pub has_members : Candidate C → List RawRecord → Bool
  has_members c records =
      same_list (sorted (map (λ r. get_or (raw_text (codes "evidence_sha256") r) []) records))
        (sorted c.source_evidence_sha256)

  abbrev pub normalized_candidate : Given C V → Checked (Candidate C)
  normalized_candidate (candidate c) = ok c
  normalized_candidate (payload d) = kit.from_dict d

  -- the payload with its version and its binding, before its own digest
  abbrev pub bound_payload : Candidate C → Text → Dict V
  bound_payload c root = insert (codes "candidate_sha256") (kit.of_text zero_digest) (
      insert (codes "source_receipts_sha256") (kit.of_text root)
        (insert (codes "schema_version") (kit.of_text kit.v2) (kit.to_dict c)))

  abbrev pub sealed_payload : Candidate C → Text → Dict V
  sealed_payload c root =
      insert (codes "candidate_sha256") (kit.of_text (kit.candidate_sha256 (bound_payload c root)))
        (bound_payload c root)

  unfoldable pub build_reconciliation_candidate_v2 :
      Given C V → List RawRecord → List SourceReceiptExpectation → Checked (Candidate C)
  build_reconciliation_candidate_v2 given records expectations = do
    c ← normalized_candidate given
    require (text_eq c.schema_version kit.v1) not_v1
    root ← calculate_source_receipts_sha256 records c.strategy_profile expectations
    require (has_members c records) members_mismatch
    kit.from_dict (sealed_payload c root)

  unfoldable pub validate_reconciliation_candidate_sources :
      Candidate C → List RawRecord → List SourceReceiptExpectation → Checked (Candidate C)
  validate_reconciliation_candidate_sources c records expectations = do
    c' ← kit.from_dict (kit.to_dict c)
    require (text_eq c'.schema_version kit.v2) not_v2
    root ← calculate_source_receipts_sha256 records c'.strategy_profile expectations
    require (has_members c' records) members_mismatch
    require (text_eq root c'.source_receipts_sha256) binding_mismatch
    ok c'
