-- ===== src/Reports/Kept.antt =====
-- scripts/execution_report_heartbeat.py: the keys for which the inspection keeps a report.
use ibkrquant.Prelude.{
  ◌≡◌, ◌↔◌, inl, inr, refl, sym, ap, ◌∙◌, Bool, true, false, ◌||◌, List, [], ◌∷◌, Option, none,
  some, some-injective, Text, text_eq, text_eq_iff, text_eq_refl, text_eq→path, mem_text, is_empty,
  all, any, if◌then◌else◌, Dict, lookup, insert, contains, lookup-insert, is_some, Bool-cases,
  arith,
}
use mathlib.Core.Path.{subst}
use ibkrquant.Reports.{Values}
use ibkrquant.Reports.Verdict.{
  Object, Kept, Inspected, Check, required_keys, answer_of, keep_answer, inspect,
}

contains-insert :
    {A : Type 0} (k j : Text) (v : A) (d : Dict A)
    → contains j (insert k v d) ≡ (text_eq j k || contains j d)
unfolding contains
contains-insert k j v d = ap is_some (lookup-insert k j v d) ∙ go (text_eq j k) (lookup j d)
  where
    go : (b : Bool) (o : Option _) → is_some (if b then some v else o) ≡ (b || is_some o)
    go true o = refl
    go false o = refl

pub all_iff :
    (p : Text → Bool) (ks : List Text)
    → (all p ks ≡ true) ↔ ((key : Text) → mem_text key ks ≡ true → p key ≡ true)
unfolding mem_text
all_iff p ks = (to ks, from ks)
  where
    to : (js : List Text) → all p js ≡ true → (key : Text) → mem_text key js ≡ true → p key ≡ true
    to [] h key m = cc
    to (j ∷ js) h key m = elim (Bool-cases (text_eq key j)) [
      | inl same ↦ subst (λ t. p t ≡ true) (sym (text_eq→path key j same)) (ground arith)
      | inr other ↦ to js (ground arith) key (ground arith)
    ]

    from :
        (js : List Text) → ((key : Text) → mem_text key js ≡ true → p key ≡ true) → all p js ≡ true
    from [] h = refl
    from (j ∷ js) h =
        let first : p j ≡ true = h j (ground (arith, text_eq_refl j)) in
        let rest = from js (λ key m. h key (ground (arith, m))) in ground (arith, first, rest)

or_assoc : (a b d : Bool) → ((a || b) || d) ≡ (a || (b || d))
or_assoc true b d = refl
or_assoc false b d = refl

pub elim-some :
    {A B : Type 0} (r : Option A) (g : A → Option B) (b : B)
    → (elim r [ none ↦ none | some a ↦ g a ]) ≡ some b
    → (a : A) × (r ≡ some a) × (g a ≡ some b)
elim-some none g b h = cc
elim-some (some a) g b h = (a, refl, h)

or_false : (b : Bool) → b ≡ (b || false)
or_false true = refl
or_false false = refl

module _ {V : Type 0} (values : Values V) (c : Check V) where
  abbrev pub hit : Text → Option (Text × Kept) → Bool
  hit key none = false
  hit key (some (k, kept)) = text_eq key k

  abbrev pub answers : Text → Object → Bool
  answers key o = elim (answer_of values c o) [ none ↦ false | some a ↦ hit key a ]

  keep_answer-contains :
      (key : Text) (a : Option (Text × Kept)) (s : Inspected)
      → is_empty (required_keys values c) ≡ false
      → contains key (keep_answer values c a s).accepted_by_service
        ≡ (contains key s.accepted_by_service || hit key a)
  keep_answer-contains key none s h = ground arith
  keep_answer-contains key (some (k, kept)) s h =
      ground (arith, h, text_eq_iff key k, contains-insert k key kept s.accepted_by_service)

  pub inspect-contains :
      (os : List Object) (s s' : Inspected) (key : Text)
      → is_empty (required_keys values c) ≡ false
      → inspect values c os s ≡ some s'
      → contains key s'.accepted_by_service
        ≡ (contains key s.accepted_by_service || any (answers key) os)
  unfolding inspect
  inspect-contains [] s s' key h e =
      ap (λ x. contains key (x.accepted_by_service)) (sym (some-injective s s' e))
      ∙ or_false (contains key s.accepted_by_service)
  inspect-contains (o ∷ os) s s' key h e =
      let (a, same, later) =
        elim-some (answer_of values c o) (λ x. inspect values c os (keep_answer values c x s)) s'
          e in
      inspect-contains os (keep_answer values c a s) s' key h later
      ∙ ap (λ b. b || any (answers key) os) (keep_answer-contains key a s h)
      ∙ or_assoc (contains key s.accepted_by_service) (hit key a) (any (answers key) os)
      ∙ ap
          (λ r.
            contains key s.accepted_by_service
            || ((elim r [ none ↦ false | some x ↦ hit key x ]) || any (answers key) os))
          (sym same)

  keep_answer-accepted :
      (a : Option (Text × Kept)) (s : Inspected)
      → is_empty (required_keys values c) ≡ false
      → (keep_answer values c a s).accepted ≡ s.accepted
  keep_answer-accepted none s h = refl
  keep_answer-accepted (some (k, kept)) s h = ground (arith, h)

  pub inspect-accepted :
      (os : List Object) (s s' : Inspected)
      → is_empty (required_keys values c) ≡ false
      → inspect values c os s ≡ some s'
      → s'.accepted ≡ s.accepted
  unfolding inspect
  inspect-accepted [] s s' h e = ap (λ x. x.accepted) (sym (some-injective s s' e))
  inspect-accepted (o ∷ os) s s' h e =
      let (a, same, later) =
        elim-some (answer_of values c o) (λ x. inspect values c os (keep_answer values c x s)) s'
          e in
      inspect-accepted os (keep_answer values c a s) s' h later ∙ keep_answer-accepted a s h
