-- ===== src/Examples/Receipts.antt =====
-- Two source records that come in the other order than they are designated.
use ibkrquant.Prelude.{
  ◌≡◌, refl, sym, ap, ◌∙◌, List, [], ◌∷◌, ◌++◌, Option, none, some, some-injective, Text, codes,
  Dict, lookup, map,
}
use ibkrquant.Reconcile.Checked.{Checked, ok, refused, bad_candidate, ◌>>=◌, >>=-ok, ok-injective}
use ibkrquant.Reconcile.Sources.{
  SourceReceiptExpectation, Designation, expected_fields, normalize_expectations,
}
use ibkrquant.Reconcile.Sources.Records.{RawRecord, record_schema}
use ibkrquant.Reconcile.Candidate.{
  Candidate, CandidateKit, Given, candidate, calculate_source_receipts_sha256,
  build_reconciliation_candidate_v2, validate_reconciliation_candidate_sources,
}
use ibkrquant.Reconcile.Candidate.Digest.{
  designated_sha256, calculate_source_receipts_sha256-designated,
}
use ibkrquant.Reconcile.Candidate.Bound.{IsCandidateKit, validate-build_reconciliation_candidate_v2}

data Value : Type 0 where
  text : Text → Value
  texts : List Text → Value

abbrev as_text : Option Value → Checked Text
as_text (some (text t)) = ok t
as_text (some (texts ts)) = refused bad_candidate
as_text none = refused bad_candidate

abbrev as_texts : Option Value → Checked (List Text)
as_texts (some (texts ts)) = ok ts
as_texts (some (text t)) = refused bad_candidate
as_texts none = refused bad_candidate

as_text-ok : (o : Option Value) (t : Text) → as_text o ≡ ok t → o ≡ some (text t)
as_text-ok (some (text s)) t h = ap (λ r. some (text r)) (ok-injective s t h)
as_text-ok (some (texts ts)) t h = cc
as_text-ok none t h = cc

as_texts-ok : (o : Option Value) (ts : List Text) → as_texts o ≡ ok ts → o ≡ some (texts ts)
as_texts-ok (some (texts s)) t h = ap (λ r. some (texts r)) (ok-injective s t h)
as_texts-ok (some (text ts)) t h = cc
as_texts-ok none t h = cc

text_of : Value → Text
text_of (text t) = t
text_of (texts ts) = []

texts_of : Value → List Text
texts_of (text t) = []
texts_of (texts ts) = ts

abbrev read : Dict Value → Checked (Candidate (Unit {0}))
read d = do
  version ← as_text (lookup (codes "schema_version") d)
  profile ← as_text (lookup (codes "strategy_profile") d)
  evidence ← as_texts (lookup (codes "source_evidence_sha256") d)
  root ← as_text (lookup (codes "source_receipts_sha256") d)
  ok (record {
    schema_version = version;
    strategy_profile = profile;
    source_evidence_sha256 = evidence;
    source_receipts_sha256 = root;
    others = tt;
  })

abbrev written : Candidate (Unit {0}) → Dict Value
written c =
    (codes "schema_version", text c.schema_version)
    ∷ (codes "strategy_profile", text c.strategy_profile)
    ∷ (codes "source_evidence_sha256", texts c.source_evidence_sha256)
    ∷ (codes "source_receipts_sha256", text c.source_receipts_sha256)
    ∷ []

-- Records are written one after the other, and a digest is the text itself.
abbrev lines : List (Dict Text) → Text
lines [] = []
lines (d ∷ ds) = values d ++ lines ds
  where
    values : Dict Text → Text
    values [] = []
    values ((k, v) ∷ r) = v ++ values r

abbrev kit : CandidateKit (Unit {0}) Value
kit = record {
  from_dict = read;
  to_dict = written;
  of_text = text;
  candidate_sha256 = λ d. codes "c0";
  v1 = codes "v1";
  v2 = codes "v2";
  dumps = lines;
  sha256 = λ t. t;
}

read_fields :
    (d : Dict Value) (c : Candidate (Unit {0}))
    → read d ≡ ok c
    → (lookup (codes "schema_version") d ≡ some (text c.schema_version))
      × (lookup (codes "strategy_profile") d ≡ some (text c.strategy_profile))
      × (lookup (codes "source_evidence_sha256") d ≡ some (texts c.source_evidence_sha256))
      × (lookup (codes "source_receipts_sha256") d ≡ some (text c.source_receipts_sha256))
read_fields d c h =
    let (version, e0, h1) = >>=-ok (as_text (lookup (codes "schema_version") d)) _ c h in
    let (profile, e1, h2) = >>=-ok (as_text (lookup (codes "strategy_profile") d)) _ c h1 in
    let (evidence, e2, h3) = >>=-ok (as_texts (lookup (codes "source_evidence_sha256") d)) _ c h2 in
    let (root, e3, h4) = >>=-ok (as_text (lookup (codes "source_receipts_sha256") d)) _ c h3 in
    let same = ok-injective _ c h4 in
    (
      as_text-ok _ version e0 ∙ ap (λ x. some (text (x.schema_version))) same,
      as_text-ok _ profile e1 ∙ ap (λ x. some (text (x.strategy_profile))) same,
      as_texts-ok _ evidence e2 ∙ ap (λ x. some (texts (x.source_evidence_sha256))) same,
      as_text-ok _ root e3 ∙ ap (λ x. some (text (x.source_receipts_sha256))) same,
    )

laws : IsCandidateKit kit texts
unfolding lookup ibkrquant.Prelude.text_eq text_of texts_of
laws = record {
  reads_version = λ d c h. (read_fields d c h).0;
  reads_profile = λ d c h. (read_fields d c h).1;
  reads_evidence = λ d c h. (read_fields d c h).2;
  reads_root = λ d c root h e. ap text_of (some-injective _ _ (sym ((read_fields d c h).3) ∙ e));
  writes_profile = λ c. refl;
  writes_evidence = λ c. refl;
  text_injective = λ s t h. ap text_of h;
  texts_injective = λ s t h. ap texts_of h;
  back = λ d c h. refl;
}

abbrev digest_a : Text
digest_a = codes "aaaaaaaaaaaaaaaaaaaaaaaaaaaaaaaaaaaaaaaaaaaaaaaaaaaaaaaaaaaaaaaa"

abbrev digest_b : Text
digest_b = codes "bbbbbbbbbbbbbbbbbbbbbbbbbbbbbbbbbbbbbbbbbbbbbbbbbbbbbbbbbbbbbbbb"

abbrev commit : Text
commit = codes "0123456789abcdef0123456789abcdef01234567"

abbrev designated : Text → Text → Text → SourceReceiptExpectation
designated id run digest = record {
  strategy_profile = codes "p";
  repository = codes "o/r";
  workflow_path = codes ".github/workflows/w.yml";
  workflow_ref = codes "refs/heads/main";
  workflow_conclusion = codes "success";
  workflow_run_id = run;
  workflow_run_attempt = codes "1";
  workflow_head_sha = commit;
  artifact_id = id;
  artifact_name = codes "ibkr-reconciliation-p-" ++ run;
  artifact_sha256 = digest;
  evidence_sha256 = digest;
  service_name = codes "svc";
  service_revision = codes "svc-1";
  service_revision_commit_sha = commit;
  service_deploy_run_id = codes "d1";
}

abbrev first : SourceReceiptExpectation
first = designated (codes "7") (codes "70") digest_a

abbrev second : SourceReceiptExpectation
second = designated (codes "8") (codes "80") digest_b

abbrev raw : SourceReceiptExpectation → RawRecord
raw e =
    (codes "schema_version", some record_schema) ∷ map (λ x. (x.0, some (x.1))) (expected_fields e)

abbrev plain : Candidate (Unit {0})
plain = record {
  schema_version = codes "v1";
  strategy_profile = codes "p";
  source_evidence_sha256 = digest_a ∷ digest_b ∷ [];
  source_receipts_sha256 = [];
  others = tt;
}

abbrev records : List RawRecord
records = raw second ∷ raw first ∷ []

abbrev expectations : List SourceReceiptExpectation
expectations = first ∷ second ∷ []

abbrev root : Text
root = lines (map (λ e. (codes "schema_version", record_schema) ∷ expected_fields e) expectations)

abbrev bound : Candidate (Unit {0})
bound = record plain { schema_version = codes "v2"; source_receipts_sha256 = root }

run_digest : calculate_source_receipts_sha256 kit records (codes "p") expectations ≡ ok root
unfolding calculate_source_receipts_sha256
    ibkrquant.Reconcile.Candidate.canonical_source_receipt_records_json
    ibkrquant.Reconcile.Sources.Records.accepted_records ibkrquant.Reconcile.Sources.canonical
    ibkrquant.Prelude.text_eq ibkrquant.Prelude.strip normalize_expectations
    ibkrquant.Reconcile.Sources.normalize_each ibkrquant.Reconcile.Sources.normalize_expectation
    ibkrquant.Reconcile.Sources.normalize_fields lookup ibkrquant.Reconcile.Sources.is_repository
    ibkrquant.Reconcile.Sources.is_workflow_path ibkrquant.Prelude.starts_with
    ibkrquant.Service.Fence.has_part ibkrquant.Reconcile.Sources.is_digest
    ibkrquant.Prelude.mem_text ibkrquant.Prelude.unique ibkrquant.Prelude.lstrip
    ibkrquant.Prelude.text_leb ibkrquant.Prelude.unique_from
    ibkrquant.Reconcile.Sources.Records.has_repeats ibkrquant.Reconcile.Sources.Records.insert_by
    ibkrquant.Reconcile.Sources.Records.key_eq ibkrquant.Reconcile.Sources.Records.key_leb
    ibkrquant.Reconcile.Sources.Records.matches_each
    ibkrquant.Reconcile.Sources.Records.normalize_records
    ibkrquant.Reconcile.Sources.Records.normalize_source_record
    ibkrquant.Reconcile.Sources.require_shared ibkrquant.Reconcile.Sources.Records.sort_by
run_digest = refl

calculate_source_receipts_sha256-designated_example :
    (ds : List Designation) × (normalize_expectations expectations ≡ ok ds)
    × (root ≡ designated_sha256 kit ds)
calculate_source_receipts_sha256-designated_example =
    calculate_source_receipts_sha256-designated kit records (codes "p") expectations root run_digest

run_build : build_reconciliation_candidate_v2 kit (candidate plain) records expectations ≡ ok bound
unfolding build_reconciliation_candidate_v2 ibkrquant.Prelude.sorted ibkrquant.Prelude.insert
    calculate_source_receipts_sha256
    ibkrquant.Reconcile.Candidate.canonical_source_receipt_records_json
    ibkrquant.Reconcile.Sources.Records.accepted_records ibkrquant.Reconcile.Sources.canonical
    ibkrquant.Prelude.text_eq ibkrquant.Prelude.strip normalize_expectations
    ibkrquant.Reconcile.Sources.normalize_each ibkrquant.Reconcile.Sources.normalize_expectation
    ibkrquant.Reconcile.Sources.normalize_fields lookup ibkrquant.Reconcile.Sources.is_repository
    ibkrquant.Reconcile.Sources.is_workflow_path ibkrquant.Prelude.starts_with
    ibkrquant.Service.Fence.has_part ibkrquant.Reconcile.Sources.is_digest
    ibkrquant.Prelude.mem_text ibkrquant.Prelude.unique ibkrquant.Prelude.lstrip
    ibkrquant.Prelude.text_leb ibkrquant.Prelude.unique_from
    ibkrquant.Reconcile.Sources.Records.has_repeats ibkrquant.Reconcile.Sources.Records.insert_by
    ibkrquant.Reconcile.Sources.Records.key_eq ibkrquant.Reconcile.Sources.Records.key_leb
    ibkrquant.Reconcile.Sources.Records.matches_each
    ibkrquant.Reconcile.Sources.Records.normalize_records
    ibkrquant.Reconcile.Sources.Records.normalize_source_record
    ibkrquant.Reconcile.Sources.require_shared ibkrquant.Reconcile.Sources.Records.sort_by
run_build = refl

validate-build_reconciliation_candidate_v2_example :
    validate_reconciliation_candidate_sources kit bound records expectations ≡ ok bound
validate-build_reconciliation_candidate_v2_example =
    validate-build_reconciliation_candidate_v2 kit texts laws (candidate plain) records expectations
      bound run_build
