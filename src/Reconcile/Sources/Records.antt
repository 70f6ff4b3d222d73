-- ===== src/Reconcile/Sources/Records.antt =====
-- application/broker_reconciliation_candidate.py: the records that are accepted for the designated sources.
use ibkrquant.Prelude.{
  Bool, false, ◌&&◌, ◌||◌, not, List, [], ◌∷◌, Option, none, some, Text, codes, text_eq, text_leb,
  map, all, any, is_empty, if◌then◌else◌, Dict, lookup, keys, same_set, get_or,
}
use ibkrquant.Reconcile.Checked.{
  Checked, ok, refused, ◌>>=◌, ◌>>◌, require, invalid_fields, bad_schema, no_record,
  repeated_record, ids_mismatch, other_profile, provenance_mismatch,
}
use ibkrquant.Reconcile.Sources.{
  Designation, SourceReceiptExpectation, artifact_of, at, canonical, id_of, normalize_expectations,
  normalize_fields, run_of, source_fields, canonical_text,
}

-- A record as it comes: a mapping, of which a value is a string or not.
abbrev pub RawRecord : Type 0
RawRecord = Dict (Option Text)

abbrev pub raw_text : Text → RawRecord → Option Text
raw_text field r = get_or (lookup field r) none

abbrev pub record_schema : Text
record_schema = codes "ibkr_reconciliation_source_receipt_record.v1"

abbrev pub is_schema : Option Text → Bool
is_schema none = false
is_schema (some t) = text_eq t record_schema

-- `_normalize_source_record`, without the version, which is always the same
unfoldable pub normalize_source_record : RawRecord → Checked (Dict Text)
normalize_source_record r = do
  require (same_set (keys r) (codes "schema_version" ∷ keys source_fields)) invalid_fields
  require (is_schema (raw_text (codes "schema_version") r)) bad_schema
  normalize_fields (λ field. raw_text field r) source_fields

unfoldable pub normalize_records : List RawRecord → Checked (List (Dict Text))
normalize_records [] = ok []
normalize_records (r ∷ rs) = do
  d ← normalize_source_record r
  ds ← normalize_records rs
  ok (d ∷ ds)

-- `_source_record_key`, and Python's order and equality of pairs
abbrev pub Key : Type 0
Key = Text × Text

abbrev pub source_record_key : Dict Text → Key
source_record_key d = (artifact_of d, run_of d)

unfoldable pub key_eq : Key → Key → Bool
key_eq a b = text_eq a.0 b.0 && text_eq a.1 b.1

unfoldable pub key_leb : Key → Key → Bool
key_leb a b = if text_eq a.0 b.0 then text_leb a.1 b.1 else text_leb a.0 b.0

unfoldable pub has_repeats : List Key → Bool
has_repeats [] = false
has_repeats (k ∷ ks) = any (key_eq k) ks || has_repeats ks

unfoldable pub insert_by {ℓ} : {A : Type ℓ} → (A → Key) → A → List A → List A
insert_by key a [] = a ∷ []
insert_by key a (b ∷ bs) = if key_leb (key a) (key b) then a ∷ b ∷ bs else b ∷ insert_by key a bs

-- `sorted(items, key=key)`
unfoldable pub sort_by {ℓ} : {A : Type ℓ} → (A → Key) → List A → List A
sort_by key [] = []
sort_by key (a ∷ as') = insert_by key a (sort_by key as')

-- `expected_by_artifact[record["artifact_id"]]`
abbrev pub designation_of : Text → List Designation → Option Designation
designation_of id [] = none
designation_of id (d ∷ ds) = if text_eq id (id_of d) then some d else designation_of id ds

-- the tests of a record against its designation, which is there
abbrev pub matches_one : Text → Dict Text → Option Designation → Checked (Unit {0})
matches_one profile r none = refused ids_mismatch
matches_one profile r (some d) = do
  require (text_eq d.profile profile) other_profile
  require (all (λ field. text_eq (at field r) (at field d.provenance)) (keys source_fields))
      provenance_mismatch

unfoldable pub matches_each : Text → List Designation → List (Dict Text) → Checked (Unit {0})
matches_each profile ds [] = ok tt
matches_each profile ds (r ∷ rs) = do
  matches_one profile r (designation_of (artifact_of r) ds)
  matches_each profile ds rs

-- The records that are accepted, in the order in which they came.
unfoldable pub accepted_records :
    List RawRecord → Text → List SourceReceiptExpectation → Checked (List (Dict Text))
accepted_records records strategy_profile expectations = do
  profile ← canonical canonical_text (codes "strategy_profile") (some strategy_profile)
  ds ← normalize_expectations expectations
  normalized ← normalize_records records
  require (not (is_empty normalized)) no_record
  require (not (has_repeats (map source_record_key normalized))) repeated_record
  require (same_set (map artifact_of normalized) (map id_of ds)) ids_mismatch
  matches_each profile ds normalized
  ok normalized

-- the record as it is written
abbrev pub versioned : Dict Text → Dict Text
versioned d = (codes "schema_version", record_schema) ∷ d
