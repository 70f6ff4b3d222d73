-- ===== src/Reconcile/Sources.antt =====
-- application/broker_reconciliation_candidate.py: the source records of a candidate, and the records
-- that an audit designates.
pub mod Records
pub mod Order
pub mod Normal
pub mod Found
pub mod Designated
use ibkrquant.Prelude.{
  ℕ, suc, ◌≡◌, Bool, true, false, ◌&&◌, ◌||◌, not, List, [], ◌∷◌, ◌++◌, Option, none, some, Text,
  codes, strip, text_eq, mem_text, starts_with, is_blank_text, text_leb, unique, keep, map, all,
  any, length, is_empty, ltb, leb, ◌==◌, if◌then◌else◌, Dict, lookup, insert, keys, same_set,
  sorted, get_or,
}
use mathlib.Core.List.{reverse}
use ibkrquant.Service.Fence.{has_part}
use ibkrquant.Reconcile.Checked.{
  Checked, ok, refused, ◌>>=◌, ◌>>◌, require, not_canonical, not_sha256, not_git_sha, not_shared,
  not_repository, not_workflow_path, no_designation, not_main_ref, not_success,
  artifact_name_mismatch, repeated_artifact, repeated_run, invalid_fields, bad_schema, no_record,
  repeated_record, ids_mismatch, other_profile, provenance_mismatch, members_mismatch, not_v1,
  not_v2, binding_mismatch,
}

-- `SourceReceiptExpectation`
pub record SourceReceiptExpectation : Type 0 where
  pub strategy_profile : Text
  pub repository : Text
  pub workflow_path : Text
  pub workflow_ref : Text
  pub workflow_conclusion : Text
  pub workflow_run_id : Text
  pub workflow_run_attempt : Text
  pub workflow_head_sha : Text
  pub artifact_id : Text
  pub artifact_name : Text
  pub artifact_sha256 : Text
  pub evidence_sha256 : Text
  pub service_name : Text
  pub service_revision : Text
  pub service_revision_commit_sha : Text
  pub service_deploy_run_id : Text

-- The tests of a field.
pub data Form : Type 0 where
  canonical_text canonical_sha256 canonical_git_sha canonical_repository : Form
  canonical_workflow_path : Form

abbrev is_hex : ℕ → Bool
is_hex c = (leb b'0' c && leb c b'9') || (leb b'a' c && leb c b'f')

unfoldable pub is_digest : ℕ → Text → Bool
is_digest n t = (length t == n) && all is_hex t

-- `text.partition("/")[0]`, and `[2]` with a slash in front if there is one
abbrev pub before_slash : Text → Text
before_slash [] = []
before_slash (c ∷ t) = if c == b'/' then [] else c ∷ before_slash t

abbrev pub from_slash : Text → Text
from_slash [] = []
from_slash (c ∷ t) = if c == b'/' then c ∷ t else from_slash t

-- the name of `owner/name`: no slash, and not empty
abbrev pub is_name : Text → Bool
is_name [] = false
is_name (_ ∷ name) = not (is_blank_text name) && not (any (λ c. c == b'/') name)

unfoldable pub is_repository : Text → Bool
is_repository t = not (is_blank_text (before_slash t)) && is_name (from_slash t)

abbrev ends_with : Text → Text → Bool
ends_with t end = starts_with (reverse t) (reverse end)

unfoldable pub is_workflow_path : Text → Bool
is_workflow_path t =
    starts_with t (codes ".github/workflows/")
    && (ends_with t (codes ".yml") || ends_with t (codes ".yaml"))
    && not (has_part t (codes ".."))

-- the test of a form on a text that is canonical
abbrev pub formed : Form → Text → Text → Checked Text
formed canonical_text field t = ok t
formed canonical_sha256 field t = do require (is_digest 64 t) (not_sha256 field); ok t
formed canonical_git_sha field t = do require (is_digest 40 t) (not_git_sha field); ok t
formed canonical_repository field t = do require (is_repository t) not_repository; ok t
formed canonical_workflow_path field t = do require (is_workflow_path t) not_workflow_path; ok t

-- The value of a field, which is a string or not: `_canonical_text` and the others.
unfoldable pub canonical : Form → Text → Option Text → Checked Text
canonical form field none = refused (not_canonical field)
canonical form field (some t) = do
  require (not (is_blank_text t) && text_eq t (strip t)) (not_canonical field)
  formed form field t

-- The fields of `_SOURCE_RECORD_FIELDS` but the version, in the order in which they are read.
abbrev pub source_fields : Dict Form
source_fields =
    (codes "repository", canonical_repository)
    ∷ (codes "workflow_path", canonical_workflow_path)
    ∷ (codes "workflow_run_id", canonical_text)
    ∷ (codes "workflow_run_attempt", canonical_text)
    ∷ (codes "workflow_head_sha", canonical_git_sha)
    ∷ (codes "artifact_id", canonical_text)
    ∷ (codes "artifact_name", canonical_text)
    ∷ (codes "artifact_sha256", canonical_sha256)
    ∷ (codes "evidence_sha256", canonical_sha256)
    ∷ (codes "service_name", canonical_text)
    ∷ (codes "service_revision", canonical_text)
    ∷ (codes "service_revision_commit_sha", canonical_git_sha)
    ∷ (codes "service_deploy_run_id", canonical_text)
    ∷ []

unfoldable pub normalize_fields : (Text → Option Text) → Dict Form → Checked (Dict Text)
normalize_fields value [] = ok []
normalize_fields value ((field, form) ∷ rest) = do
  t ← canonical form field (value field)
  d ← normalize_fields value rest
  ok ((field, t) ∷ d)

abbrev pub expected_fields : SourceReceiptExpectation → Dict Text
expected_fields e =
    (codes "repository", e.repository)
    ∷ (codes "workflow_path", e.workflow_path)
    ∷ (codes "workflow_run_id", e.workflow_run_id)
    ∷ (codes "workflow_run_attempt", e.workflow_run_attempt)
    ∷ (codes "workflow_head_sha", e.workflow_head_sha)
    ∷ (codes "artifact_id", e.artifact_id)
    ∷ (codes "artifact_name", e.artifact_name)
    ∷ (codes "artifact_sha256", e.artifact_sha256)
    ∷ (codes "evidence_sha256", e.evidence_sha256)
    ∷ (codes "service_name", e.service_name)
    ∷ (codes "service_revision", e.service_revision)
    ∷ (codes "service_revision_commit_sha", e.service_revision_commit_sha)
    ∷ (codes "service_deploy_run_id", e.service_deploy_run_id)
    ∷ []

-- A normalised record or expectation without its own first field: `record[field]`.
abbrev pub at : Text → Dict Text → Text
at field d = get_or (lookup field d) []

abbrev pub artifact_of : Dict Text → Text
artifact_of = at (codes "artifact_id")

abbrev pub run_of : Dict Text → Text
run_of = at (codes "workflow_run_id")

-- A normalised expectation.
pub record Designation : Type 0 where
  pub profile : Text
  pub provenance : Dict Text

abbrev pub id_of : Designation → Text
id_of d = artifact_of d.provenance

unfoldable pub normalize_expectation : SourceReceiptExpectation → Checked Designation
normalize_expectation e = do
  require (text_eq e.workflow_ref (codes "refs/heads/main")) not_main_ref
  require (text_eq e.workflow_conclusion (codes "success")) not_success
  profile ← canonical canonical_text (codes "strategy_profile") (some e.strategy_profile)
  provenance ← normalize_fields (λ field. lookup field (expected_fields e)) source_fields
  require
      (text_eq (at (codes "artifact_name") provenance)
        (codes "ibkr-reconciliation-" ++ (profile ++ (codes "-" ++ run_of provenance))))
      artifact_name_mismatch
  ok (record { profile = profile; provenance = provenance })

-- the loop over the expectations, with the artifact ids that it has seen
unfoldable pub normalize_each :
    List Text → List SourceReceiptExpectation → Checked (List Designation)
normalize_each seen [] = ok []
normalize_each seen (e ∷ es) = do
  d ← normalize_expectation e
  require (not (mem_text (id_of d) seen)) repeated_artifact
  ds ← normalize_each (id_of d ∷ seen) es
  ok (d ∷ ds)

-- `len({...}) != len(...)`
abbrev pub all_differ : List Text → Bool
all_differ ts = length (unique ts) == length ts

-- `len({value[field_name] for value in normalized.values()}) == 1`
abbrev pub all_share : List Text → Bool
all_share ts = length (unique ts) == 1

abbrev pub shared_fields : List Text
shared_fields =
    codes "repository"
    ∷ codes "workflow_path"
    ∷ codes "workflow_head_sha"
    ∷ codes "service_name"
    ∷ codes "service_revision"
    ∷ codes "service_revision_commit_sha"
    ∷ []

unfoldable pub require_shared : List Designation → List Text → Checked (Unit {0})
require_shared ds [] = ok tt
require_shared ds (field ∷ rest) = do
  require (all_share (map (λ d. at field d.provenance) ds)) (not_shared field)
  require_shared ds rest

-- `_normalize_expectations`: the values of the dict, whose keys are their artifact ids
unfoldable pub normalize_expectations : List SourceReceiptExpectation → Checked (List Designation)
normalize_expectations expectations = do
  require (not (is_empty expectations)) no_designation
  ds ← normalize_each [] expectations
  require (all_differ (map (λ d. run_of d.provenance) ds)) repeated_run
  require (all_share (map (λ d. d.profile) ds)) (not_shared (codes "strategy_profile"))
  require_shared ds shared_fields
  ok ds
