-- ===== src/Reconcile/Sources/Normal.antt =====
-- application/broker_reconciliation_candidate.py: what normalised records and expectations have.
use ibkrquant.Prelude.{
  ◌≡◌, refl, sym, ap, ◌∙◌, true, false, not, List, [], ◌∷◌, ◌++◌, map, Option, some, Text, codes,
  text_eq, text_eq_iff, text_eq_refl, mem_text, All, keys, Dict, lookup, get_or, if◌then◌else◌,
  same_set, arith,
}
use mathlib.Core.Path.{subst}
use ibkrquant.Reconcile.Checked.{ok, >>=-ok, require-ok, ok-injective}
use ibkrquant.Reconcile.Sources.{
  SourceReceiptExpectation, Form, Designation, source_fields, normalize_fields,
  normalize_expectation, normalize_each, run_of, id_of, at, canonical, expected_fields,
}
use ibkrquant.Reconcile.Sources.Records.{
  RawRecord, normalize_source_record, normalize_records, is_schema, raw_text,
}

-- No text stands twice.
abbrev pub Differ : List Text → Type 0
Differ [] = Unit
Differ (t ∷ ts) = (mem_text t ts ≡ false) × Differ ts

not-in-ids :
    (t : Text) (seen : List Text) (ds : List Designation)
    → All (λ d. mem_text (id_of d) (t ∷ seen) ≡ false) ds
    → (mem_text t (map id_of ds) ≡ false) × All (λ d. mem_text (id_of d) seen ≡ false) ds
unfolding mem_text
not-in-ids t seen [] h = (refl, tt)
not-in-ids t seen (d ∷ ds) h =
    let (m, a) = not-in-ids t seen ds h.1 in
    (
      ground (arith, m, h.0, text_eq_iff t (id_of d), text_eq_iff (id_of d) t),
      (ground (arith, h.0), a),
    )

pub normalize_each-Differ :
    (seen : List Text) (es : List SourceReceiptExpectation) (ds : List Designation)
    → normalize_each seen es ≡ ok ds
    → All (λ d. mem_text (id_of d) seen ≡ false) ds × Differ (map id_of ds)
unfolding normalize_each
normalize_each-Differ seen [] ds h =
    subst (λ l. All (λ d. mem_text (id_of d) seen ≡ false) l × Differ (map id_of l))
      (ok-injective [] ds h) (tt, tt)
normalize_each-Differ seen (e ∷ es) ds h =
    let (d, one, h1) = >>=-ok (normalize_expectation e) _ ds h in
    let (fresh, h2) = require-ok (not (mem_text (id_of d) seen)) _ _ ds h1 in
    let (rest, later, h3) = >>=-ok (normalize_each (id_of d ∷ seen) es) _ ds h2 in
    let (apart, differ) = normalize_each-Differ (id_of d ∷ seen) es rest later in
    let (new, unseen) = not-in-ids (id_of d) seen rest apart in
    let fresh' : mem_text (id_of d) seen ≡ false = ground arith in
    subst (λ l. All (λ x. mem_text (id_of x) seen ≡ false) l × Differ (map id_of l))
      (ok-injective (d ∷ rest) ds h3) ((fresh', unseen), (new, differ))

normalize_fields-keys :
    (value : Text → Option Text) (fs : Dict Form) (d : Dict Text)
    → normalize_fields value fs ≡ ok d
    → keys d ≡ keys fs
unfolding normalize_fields
normalize_fields-keys value [] d h = ap keys (sym (ok-injective [] d h))
normalize_fields-keys value ((field, form) ∷ rest) d h =
    let (t, one, h1) = >>=-ok (canonical form field (value field)) _ d h in
    let (r, later, h2) = >>=-ok (normalize_fields value rest) _ d h1 in
    ap keys (sym (ok-injective ((field, t) ∷ r) d h2))
    ∙ ap (λ l. field ∷ l) (normalize_fields-keys value rest r later)

-- A dict with the fields of a record, in their order.
abbrev pub HasFields : Dict Text → Type 0
HasFields d = keys d ≡ keys source_fields

pub normalize_records-HasFields :
    (rs : List RawRecord) (ds : List (Dict Text)) → normalize_records rs ≡ ok ds → All HasFields ds
unfolding normalize_records normalize_source_record
normalize_records-HasFields [] ds h = subst (All HasFields) (ok-injective [] ds h) tt
normalize_records-HasFields (r ∷ rs) ds h =
    let (d, one, h1) = >>=-ok (normalize_source_record r) _ ds h in
    let (rest, later, h2) = >>=-ok (normalize_records rs) _ ds h1 in
    let (_, one1) =
      require-ok (same_set (keys r) (codes "schema_version" ∷ keys source_fields)) _ _ d one in
    let (_, one2) = require-ok (is_schema (raw_text (codes "schema_version") r)) _ _ d one1 in
    subst (All HasFields) (ok-injective (d ∷ rest) ds h2)
      (normalize_fields-keys _ source_fields d one2, normalize_records-HasFields rs rest later)

normalize_expectation-HasFields :
    (e : SourceReceiptExpectation) (d : Designation)
    → normalize_expectation e ≡ ok d
    → HasFields d.provenance
unfolding normalize_expectation
normalize_expectation-HasFields e d h =
    let (_, h1) = require-ok (text_eq e.workflow_ref (codes "refs/heads/main")) _ _ d h in
    let (_, h2) = require-ok (text_eq e.workflow_conclusion (codes "success")) _ _ d h1 in
    let (p, _, h3) =
      >>=-ok (canonical Form.canonical_text (codes "strategy_profile") (some e.strategy_profile)) _
        d h2 in
    let (q, fields, h4) =
      >>=-ok (normalize_fields (λ field. lookup field (expected_fields e)) source_fields) _ d h3 in
    let (_, h5) =
      require-ok
        (text_eq (at (codes "artifact_name") q)
          (codes "ibkr-reconciliation-" ++ (p ++ (codes "-" ++ run_of q))))
        _ _ d h4 in
    subst (λ x. HasFields (x.provenance))
      (ok-injective (record { profile = p; provenance = q }) d h5)
      (normalize_fields-keys _ source_fields q fields)

pub normalize_each-HasFields :
    (seen : List Text) (es : List SourceReceiptExpectation) (ds : List Designation)
    → normalize_each seen es ≡ ok ds
    → All (λ d. HasFields d.provenance) ds
unfolding normalize_each
normalize_each-HasFields seen [] ds h =
    subst (All (λ d. HasFields d.provenance)) (ok-injective [] ds h) tt
normalize_each-HasFields seen (e ∷ es) ds h =
    let (d, one, h1) = >>=-ok (normalize_expectation e) _ ds h in
    let (_, h2) = require-ok (not (mem_text (id_of d) seen)) _ _ ds h1 in
    let (rest, later, h3) = >>=-ok (normalize_each (id_of d ∷ seen) es) _ ds h2 in
    subst (All (λ x. HasFields (x.provenance))) (ok-injective (d ∷ rest) ds h3) (
      normalize_expectation-HasFields e d one,
      normalize_each-HasFields (id_of d ∷ seen) es rest later,
    )

at-skip :
    (k : Text) (t : Text) (d : Dict Text) (ks : List Text) (P : Text → Text → Type 0)
    → mem_text k ks ≡ false
    → All (λ f. P f (at f ((k, t) ∷ d))) ks
    → All (λ f. P f (at f d)) ks
unfolding mem_text lookup
at-skip k t d [] P h a = tt
at-skip k t d (f ∷ fs) P h a =
    let other : text_eq f k ≡ false = ground (arith, h, text_eq_iff f k, text_eq_iff k f) in
    (
      subst (λ b. P f (get_or (if b then some t else lookup f d) [])) other a.0,
      at-skip k t d fs P (ground (arith, h)) a.1,
    )

-- Two dicts with the same distinct keys, in one order, and the same values are one.
pub same_dict :
    (d d' : Dict Text)
    → keys d' ≡ keys d
    → Differ (keys d)
    → All (λ f. at f d' ≡ at f d) (keys d)
    → d' ≡ d
unfolding lookup
same_dict [] [] e n a = refl
same_dict [] (x ∷ d') e n a = cc
same_dict (x ∷ d) [] e n a = cc
same_dict ((k, t) ∷ d) ((k', t') ∷ d') e n a =
    let keys_tail : keys d' ≡ keys d = cc in
    let key : k' ≡ k = cc in
    let own : text_eq k k ≡ true = text_eq_refl k in
    let own' : text_eq k k' ≡ true = (text_eq_iff k k').1 (sym key) in
    let value : t' ≡ t =
      subst (λ b. get_or (if b then some t' else lookup k d') [] ≡ t) own'
        (subst (λ b. at k ((k', t') ∷ d') ≡ get_or (if b then some t else lookup k d) []) own
          a.0) in
    let rest = at-skip k t d (keys d) (λ f v. at f ((k', t') ∷ d') ≡ v) n.0 a.1 in
    let rest' =
      at-skip k' t' d' (keys d) (λ f v. v ≡ at f d)
        (subst (λ j. mem_text j (keys d) ≡ false) (sym key) n.0) rest in
    let tails = same_dict d d' keys_tail n.1 rest' in cc
