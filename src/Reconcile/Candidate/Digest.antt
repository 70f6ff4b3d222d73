-- ===== src/Reconcile/Candidate/Digest.antt =====
-- application/broker_reconciliation_candidate.py: the digest depends on the designation alone.
use ibkrquant.Prelude.{◌≡◌, sym, ap, ◌∙◌, List, map, Text}
use ibkrquant.Reconcile.Checked.{ok, >>=-ok, ok-injective}
use ibkrquant.Reconcile.Sources.{SourceReceiptExpectation, Designation, normalize_expectations}
use ibkrquant.Reconcile.Sources.Records.{RawRecord, accepted_records, versioned}
use ibkrquant.Reconcile.Sources.Designated.{accepted_records-Accepted, sorted-Accepted}
use ibkrquant.Reconcile.Candidate.{
  CandidateKit, serialized, canonical_source_receipt_records_json, calculate_source_receipts_sha256,
}

module _ {C V : Type 0} (kit : CandidateKit C V) where
  -- the digest of the designated records themselves
  abbrev pub designated_sha256 : List Designation → Text
  designated_sha256 ds = kit.sha256 (serialized kit (map (λ d. d.provenance) ds))

  -- Whatever records are given, in whatever order: where a digest is calculated, the expectations are
  -- normalised to some designations, and the digest is the one of their own fields.
  pub calculate_source_receipts_sha256-designated :
      (records : List RawRecord) (profile : Text) (expectations : List SourceReceiptExpectation)
      (digest : Text)
      → calculate_source_receipts_sha256 kit records profile expectations ≡ ok digest
      → (ds : List Designation) × (normalize_expectations expectations ≡ ok ds)
        × (digest ≡ designated_sha256 ds)
  unfolding calculate_source_receipts_sha256 canonical_source_receipt_records_json
  calculate_source_receipts_sha256-designated records profile expectations digest h =
      let (json, made, h1) =
        >>=-ok (canonical_source_receipt_records_json kit records profile expectations) _ digest
          h in
      let (rs, accepted, h2) = >>=-ok (accepted_records records profile expectations) _ json made in
      let a = accepted_records-Accepted records profile expectations rs accepted in
      (
        a.designations,
        a.are_designated,
        sym (ok-injective (kit.sha256 json) digest h1)
            ∙ ap kit.sha256 (sym (ok-injective (serialized kit rs) json h2))
            ∙ ap (λ l. kit.sha256 (kit.dumps (map versioned l)))
                (sorted-Accepted profile expectations rs a),
      )
