-- ===== src/Reconcile/Sources/Found.antt =====
-- application/broker_reconciliation_candidate.py: a record that is accepted is the one of its designation.
use ibkrquant.Prelude.{
  ◌≡◌, refl, sym, ◌∙◌, inl, inr, true, false, List, [], ◌∷◌, map, Option, none, some,
  some-injective, Text, text_eq, text_eq_iff, text_eq_refl, text_eq→path, mem_text, all, All,
  All-map, all→All, keys, Dict, Bool-cases, arith,
}
use mathlib.Core.Path.{subst}
use mathlib.Core.List.{Mem, mem-cons, mem-cons_self}
use ibkrquant.Reconcile.Checked.{ok, >>=-ok, require-ok, required}
use ibkrquant.Reconcile.Sources.{Designation, source_fields, artifact_of, id_of, at}
use ibkrquant.Reconcile.Sources.Records.{
  Key, source_record_key, designation_of, matches_one, matches_each,
}
use ibkrquant.Reconcile.Sources.Normal.{Differ, HasFields, same_dict}

abbrev pub key_of : Designation → Key
key_of d = source_record_key d.provenance

-- what a designation that is found has
pub designation_of-All :
    (P : Designation → Type 0) (id : Text) (ds : List Designation) (d : Designation)
    → All P ds
    → designation_of id ds ≡ some d
    → P d
designation_of-All P id [] d a h = cc
designation_of-All P id (x ∷ xs) d a h = elim (Bool-cases (text_eq id (id_of x))) [
  | inl same ↦ subst P (some-injective x d (rw same at h)) a.0
  | inr other ↦ designation_of-All P id xs d a.1 (rw other at h)
]

pub designation_of-mem :
    (id : Text) (ds : List Designation) (d : Designation)
    → designation_of id ds ≡ some d
    → Mem (key_of d) (map key_of ds)
designation_of-mem id [] d h = cc
designation_of-mem id (x ∷ xs) d h = elim (Bool-cases (text_eq id (id_of x))) [
  | inl same ↦
      subst (λ y. Mem (key_of y) (key_of x ∷ map key_of xs)) (some-injective x d (rw same at h))
        mem-cons_self
  | inr other ↦ mem-cons.1 ∣ inr (designation_of-mem id xs d (rw other at h)) ∣₁
]

-- Where the ids differ, each designation is found by its own.
pub designation_of_self :
    (ds : List Designation)
    → Differ (map id_of ds)
    → All (λ d. designation_of (id_of d) ds ≡ some d) ds
unfolding mem_text
designation_of_self [] h = tt
designation_of_self (d ∷ ds) h =
    (rw (text_eq_refl (id_of d)) refl, later ds h.0 (designation_of_self ds h.1))
  where
    later :
        (xs : List Designation)
        → mem_text (id_of d) (map id_of xs) ≡ false
        → All (λ x. designation_of (id_of x) ds ≡ some x) xs
        → All (λ x. designation_of (id_of x) (d ∷ ds) ≡ some x) xs
    later [] e a = tt
    later (x ∷ xs) e a = (
      ground (arith, e, a.0, text_eq_iff (id_of d) (id_of x), text_eq_iff (id_of x) (id_of d)),
      later xs (ground arith) a.1,
    )

fields-Differ : Differ (keys source_fields)
unfolding mem_text text_eq
fields-Differ = (
  refl,
  (
    refl,
    (refl, (refl, (refl, (refl, (refl, (refl, (refl, (refl, (refl, (refl, (refl, tt))))))))))),
  ),
)

-- A record is the one of its designation, which is one for the profile.
pub record Found (profile : Text) (ds : List Designation) (r : Dict Text) : Type 0 where
  pub designation : Designation
  pub is_found : designation_of (artifact_of r) ds ≡ some designation
  pub same_profile : designation.profile ≡ profile
  pub same_record : r ≡ designation.provenance

matches_one-Found :
    (profile : Text) (ds : List Designation) (r : Dict Text) (o : Option Designation)
    → designation_of (artifact_of r) ds ≡ o
    → HasFields r
    → All (λ d. HasFields d.provenance) ds
    → matches_one profile r o ≡ ok tt
    → Found profile ds r
matches_one-Found profile ds r none e hr hds h = cc
matches_one-Found profile ds r (some d) e hr hds h =
    let (p, h1) = require-ok (text_eq d.profile profile) _ _ tt h in
    let q =
      required (all (λ field. text_eq (at field r) (at field d.provenance)) (keys source_fields)) _
        h1 in
    let fields = designation_of-All (λ x. HasFields x.provenance) (artifact_of r) ds d hds e in
    let at_all =
      All-map (λ f. text_eq (at f r) (at f d.provenance) ≡ true) (λ f. at f r ≡ at f d.provenance)
        (keys source_fields) (λ f. text_eq→path (at f r) (at f d.provenance))
        (all→All (λ field. text_eq (at field r) (at field d.provenance)) (keys source_fields) q) in
    record {
      designation = d;
      is_found = e;
      same_profile = text_eq→path d.profile profile p;
      same_record =
          same_dict d.provenance r (hr ∙ sym fields) (subst Differ (sym fields) fields-Differ)
            (subst (All (λ f. at f r ≡ at f d.provenance)) (sym fields) at_all);
    }

pub matches_each-Found :
    (profile : Text) (ds : List Designation) (rs : List (Dict Text))
    → All HasFields rs
    → All (λ d. HasFields d.provenance) ds
    → matches_each profile ds rs ≡ ok tt
    → All (Found profile ds) rs
unfolding matches_each
matches_each-Found profile ds [] hr hds h = tt
matches_each-Found profile ds (r ∷ rs) hr hds h =
    let (_, one, h1) = >>=-ok (matches_one profile r (designation_of (artifact_of r) ds)) _ tt h in
    (
      matches_one-Found profile ds r (designation_of (artifact_of r) ds) refl hr.0 hds one,
      matches_each-Found profile ds rs hr.1 hds h1,
    )
