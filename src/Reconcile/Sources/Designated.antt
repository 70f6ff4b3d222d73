-- ===== src/Reconcile/Sources/Designated.antt =====
-- application/broker_reconciliation_candidate.py: the records that are accepted are the designated ones.
use ibkrquant.Prelude.{
  ◌≡◌, refl, sym, ap, ◌∙◌, inl, inr, true, false, ◌&&◌, not, List, [], ◌∷◌, map, none, some, Text,
  codes, text_eq, text_eq_iff, text_eq→path, mem_text, all, All, any, Dict, Bool-cases, same_set,
  arith, is_empty, is_blank_text, strip,
}
use mathlib.Core.Path.{subst, ap₂}
use mathlib.Core.Logic.Or
use mathlib.Core.List.{
  Mem, Mem-prop, Nodup, Perm, not-mem-nil, mem-cons, mem-cons_self, Nodup-nil, Nodup-cons,
  perm_ext_iff_of_Nodup,
}
use ibkrquant.Reconcile.Checked.{ok, >>=-ok, require-ok, ok-injective}
use ibkrquant.Reconcile.Sources.{
  SourceReceiptExpectation, Form, Designation, normalize_each, normalize_expectations, artifact_of,
  run_of, id_of, canonical, all_differ, all_share, require_shared, shared_fields,
}
use ibkrquant.Reconcile.Sources.Records.{
  RawRecord, Key, normalize_records, source_record_key, key_eq, has_repeats, designation_of,
  matches_each, accepted_records, sort_by,
}
use ibkrquant.Reconcile.Sources.Order.{key_eq_iff, sort-perm, sort_by-map}
use ibkrquant.Reconcile.Sources.Normal.{
  Differ, normalize_each-Differ, normalize_records-HasFields, normalize_each-HasFields,
}
use ibkrquant.Reconcile.Sources.Found.{
  Found, key_of, designation_of-mem, designation_of_self, matches_each-Found,
}

Nodup-of_repeats : (ks : List Key) → has_repeats ks ≡ false → Nodup ks
unfolding has_repeats
Nodup-of_repeats [] h = Nodup-nil
Nodup-of_repeats (k ∷ ks) h =
    Nodup-cons.1 (absent ks (ground arith), Nodup-of_repeats ks (ground arith))
  where
    absent : (js : List Key) → any (key_eq k) js ≡ false → ¬ Mem k js
    absent [] e m = not-mem-nil m
    absent (j ∷ js) e m =
        Or.elim (hlevel) (mem-cons.0 m) (λ same. ground (arith, e, key_eq_iff k j, same))
          (absent js (ground arith))

Nodup-of_Differ : (ds : List Designation) → Differ (map id_of ds) → Nodup (map key_of ds)
unfolding mem_text
Nodup-of_Differ [] h = Nodup-nil
Nodup-of_Differ (d ∷ ds) h = Nodup-cons.1 (absent ds h.0, Nodup-of_Differ ds h.1)
  where
    absent :
        (xs : List Designation)
        → mem_text (id_of d) (map id_of xs) ≡ false
        → ¬ Mem (key_of d) (map key_of xs)
    absent [] e m = not-mem-nil m
    absent (x ∷ xs) e m =
        Or.elim (hlevel) (mem-cons.0 m)
          (λ same. ground (arith, e, text_eq_iff (id_of d) (id_of x), ap (λ k. k.0) same))
          (absent xs (ground arith))

-- the record that an artifact's id stands for
abbrev source_of : List Designation → Text → Dict Text
source_of ds id = elim (designation_of id ds) [ none ↦ [] | some d ↦ d.provenance ]

module _ (ds : List Designation) where
  source-Found :
      (profile : Text) (r : Dict Text) → Found profile ds r → source_of ds (artifact_of r) ≡ r
  source-Found profile r f =
      ap (λ o. elim o [ none ↦ [] | some d ↦ d.provenance ]) f.is_found ∙ sym f.same_record

  sources-Found :
      (profile : Text) (rs : List (Dict Text))
      → All (Found profile ds) rs
      → map (λ k. source_of ds (k.0)) (map source_record_key rs) ≡ rs
  sources-Found profile [] h = refl
  sources-Found profile (r ∷ rs) h =
      ap₂ ◌∷◌ (source-Found profile r h.0) (sources-Found profile rs h.1)

  sources_of_ds :
      (xs : List Designation)
      → All (λ d. designation_of (id_of d) ds ≡ some d) xs
      → map (λ k. source_of ds (k.0)) (map key_of xs) ≡ map (λ d. d.provenance) xs
  sources_of_ds [] h = refl
  sources_of_ds (x ∷ xs) h =
      ap₂ ◌∷◌ (ap (λ o. elim o [ none ↦ [] | some d ↦ d.provenance ]) h.0) (sources_of_ds xs h.1)

  -- every key of a record is the key of a designation
  key-Found :
      (profile : Text) (r : Dict Text)
      → Found profile ds r
      → Mem (source_record_key r) (map key_of ds)
  key-Found profile r f =
      subst (λ x. Mem (source_record_key x) (map key_of ds)) (sym f.same_record)
        (designation_of-mem (artifact_of r) ds f.designation f.is_found)

  keys-Found :
      (profile : Text) (rs : List (Dict Text)) (k : Key)
      → All (Found profile ds) rs
      → Mem k (map source_record_key rs)
      → Mem k (map key_of ds)
  keys-Found profile [] k h m = absurd (not-mem-nil m)
  keys-Found profile (r ∷ rs) k h m =
      Or.elim Mem-prop (mem-cons.0 m)
        (λ e. subst (λ j. Mem j (map key_of ds)) (sym e) (key-Found profile r h.0))
        (keys-Found profile rs k h.1)

  -- a record with an artifact's id has the key of its designation
  id-Found :
      (profile : Text) (rs : List (Dict Text)) (d : Designation)
      → All (Found profile ds) rs
      → designation_of (id_of d) ds ≡ some d
      → mem_text (id_of d) (map artifact_of rs) ≡ true
      → Mem (key_of d) (map source_record_key rs)
  unfolding mem_text
  id-Found profile [] d h e m = cc
  id-Found profile (r ∷ rs) d h e m = elim (Bool-cases (text_eq (id_of d) (artifact_of r))) [
    | inl same ↦
        let id = text_eq→path (id_of d) (artifact_of r) same in
        let record_d : d.provenance ≡ r =
          ap (λ o. elim o [ none ↦ [] | some x ↦ x.provenance ]) (sym e)
          ∙ ap (source_of ds) id
          ∙ source-Found profile r h.0 in
        subst (λ x. Mem (source_record_key x) (map source_record_key (r ∷ rs))) (sym record_d)
          mem-cons_self
    | inr other ↦ mem-cons.1 ∣ inr (id-Found profile rs d h.1 e (ground arith)) ∣₁
  ]

  designated-keys :
      (profile : Text) (rs : List (Dict Text)) (xs : List Designation) (k : Key)
      → All (Found profile ds) rs
      → All (λ d. designation_of (id_of d) ds ≡ some d) xs
      → all (λ id. mem_text id (map artifact_of rs)) (map id_of xs) ≡ true
      → Mem k (map key_of xs)
      → Mem k (map source_record_key rs)
  designated-keys profile rs [] k h e a m = absurd (not-mem-nil m)
  designated-keys profile rs (x ∷ xs) k h e a m =
      Or.elim Mem-prop (mem-cons.0 m)
        (λ same.
          subst (λ j. Mem j (map source_record_key rs)) (sym same)
            (id-Found profile rs x h e.0 (ground arith)))
        (designated-keys profile rs xs k h e.1 (ground arith))

  keys_perm :
      (profile : Text) (rs : List (Dict Text))
      → All (Found profile ds) rs
      → Differ (map id_of ds)
      → has_repeats (map source_record_key rs) ≡ false
      → all (λ id. mem_text id (map artifact_of rs)) (map id_of ds) ≡ true
      → Perm (map source_record_key rs) (map key_of ds)
  keys_perm profile rs found differ fresh there =
      (perm_ext_iff_of_Nodup (Nodup-of_repeats (map source_record_key rs) fresh)
          (Nodup-of_Differ ds differ)).1
        (λ k. (
          keys-Found profile rs k found,
          designated-keys profile rs ds k found (designation_of_self ds differ) there,
        ))

canonical-same : (field t p : Text) → canonical Form.canonical_text field (some t) ≡ ok p → p ≡ t
unfolding canonical
canonical-same field t p h =
    let (_, h1) = require-ok (not (is_blank_text t) && text_eq t (strip t)) _ _ p h in
    sym (ok-injective t p h1)

each_of_expectations :
    (expectations : List SourceReceiptExpectation) (ds : List Designation)
    → normalize_expectations expectations ≡ ok ds
    → normalize_each [] expectations ≡ ok ds
unfolding normalize_expectations
each_of_expectations expectations ds h =
    let (_, h1) = require-ok (not (is_empty expectations)) _ _ ds h in
    let (xs, each, h2) = >>=-ok (normalize_each [] expectations) _ ds h1 in
    let (_, h3) = require-ok (all_differ (map (λ d. run_of d.provenance) xs)) _ _ ds h2 in
    let (_, h4) = require-ok (all_share (map (λ d. d.profile) xs)) _ _ ds h3 in
    let (_, _, h5) = >>=-ok (require_shared xs shared_fields) _ ds h4 in each ∙ h5

-- The records that are accepted are the designated ones, in some order.
pub record Accepted (profile : Text) (expectations : List SourceReceiptExpectation)
    (rs : List (Dict Text)) : Type 0 where
  pub designations : List Designation
  pub are_designated : normalize_expectations expectations ≡ ok designations
  pub found : All (Found profile designations) rs
  pub differ : Differ (map id_of designations)
  pub keys_match : Perm (map source_record_key rs) (map key_of designations)

pub accepted_records-Accepted :
    (records : List RawRecord) (profile : Text) (expectations : List SourceReceiptExpectation)
    (rs : List (Dict Text))
    → accepted_records records profile expectations ≡ ok rs
    → Accepted profile expectations rs
unfolding accepted_records
accepted_records-Accepted records profile expectations rs h =
    let (p, canon, h1) =
      >>=-ok (canonical Form.canonical_text (codes "strategy_profile") (some profile)) _ rs h in
    let (ds, designated, h2) = >>=-ok (normalize_expectations expectations) _ rs h1 in
    let (xs, normal, h3) = >>=-ok (normalize_records records) _ rs h2 in
    let (_, h4) = require-ok (not (is_empty xs)) _ _ rs h3 in
    let (fresh, h5) = require-ok (not (has_repeats (map source_record_key xs))) _ _ rs h4 in
    let (ids, h6) = require-ok (same_set (map artifact_of xs) (map id_of ds)) _ _ rs h5 in
    let (_, matched, h7) = >>=-ok (matches_each p ds xs) _ rs h6 in
    let each = each_of_expectations expectations ds designated in
    let (_, differ) = normalize_each-Differ [] expectations ds each in
    let same = canonical-same (codes "strategy_profile") profile p canon in
    let found =
      matches_each-Found profile ds xs (normalize_records-HasFields records xs normal)
        (normalize_each-HasFields [] expectations ds each)
        (subst (λ t. matches_each t ds xs ≡ ok tt) same matched) in
    subst (Accepted profile expectations) (ok-injective xs rs h7) (record {
      designations = ds;
      are_designated = designated;
      found = found;
      differ = differ;
      keys_match = keys_perm ds profile xs found differ (ground arith) (ground arith);
    })

key-source :
    (ds : List Designation) (xs : List Designation)
    → All (λ d. designation_of (id_of d) ds ≡ some d) xs
    → All (λ k. source_record_key (source_of ds (k.0)) ≡ k) (map key_of xs)
key-source ds [] h = tt
key-source ds (x ∷ xs) h = (
  ap (λ o. source_record_key (elim o [ none ↦ [] | some d ↦ d.provenance ])) h.0,
  key-source ds xs h.1,
)

key-record :
    (ds : List Designation) (profile : Text) (rs : List (Dict Text))
    → All (Found profile ds) rs
    → All (λ k. source_record_key (source_of ds (k.0)) ≡ k) (map source_record_key rs)
key-record ds profile [] h = tt
key-record ds profile (r ∷ rs) h =
    (ap source_record_key (source-Found ds profile r h.0), key-record ds profile rs h.1)

-- In the order of their keys, the records that are accepted are the designated ones.
pub sorted-Accepted :
    (profile : Text) (expectations : List SourceReceiptExpectation) (rs : List (Dict Text))
    (a : Accepted profile expectations rs)
    → sort_by source_record_key rs
      ≡ sort_by source_record_key (map (λ d. d.provenance) a.designations)
sorted-Accepted profile expectations rs a =
    let ds = a.designations in
    let f : Key → Dict Text = λ k. source_of ds (k.0) in
    let self = designation_of_self ds a.differ in
    ap (sort_by source_record_key) (sym (sources-Found ds profile rs a.found))
    ∙ sort_by-map source_record_key f (map source_record_key rs) (key-record ds profile rs a.found)
    ∙ ap (map f) (sort-perm (map source_record_key rs) (map key_of ds) a.keys_match)
    ∙ sym (sort_by-map source_record_key f (map key_of ds) (key-source ds ds self))
    ∙ ap (sort_by source_record_key) (sources_of_ds ds ds self)
