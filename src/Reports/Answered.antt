-- ===== src/Reports/Answered.antt =====
-- scripts/execution_report_heartbeat.py: what a heartbeat says of the keys that were due.
use ibkrquant.Prelude.{
  ◌≡◌, ◌↔◌, ◌⊎◌, inl, inr, refl, sym, ap, ◌∙◌, Bool, true, false, List, [], ◌∷◌, Option, none, some,
  some-injective, Text, text_eq_refl, text_eq→path, mem_text, is_empty, all, any, if◌then◌else◌,
  Dict, lookup, contains, Bool-cases, arith,
}
use mathlib.Core.Path.{subst}
use ibkrquant.Reports.{Values, Reason}
use ibkrquant.Reports.Accepted.{is_accepted_report}
use ibkrquant.Reports.Matching.{payload_matches}
use ibkrquant.Reports.Kept.{all_iff, elim-some, hit, answers, inspect-contains, inspect-accepted}
use ibkrquant.Reports.Verdict.{
  Object, Kept, Inspected, Check, Outcome, ok, required_keys, required_due_at, predates, targets,
  judge, matched, read, answer_of, inspect, read_objects, verdict, heartbeat,
}

-- some element has a property
abbrev pub Some : {A : Type 0} → (A → Type 0) → List A → Type 0
Some P [] = ⊥
Some P (x ∷ xs) = P x ⊎ Some P xs

configured :
    {A : Type 0} (b : Bool) (x : Option A) (v : A) → (if b then none else x) ≡ some v → x ≡ some v
configured true x v h = cc
configured false x v h = h

module _ {V : Type 0} (values : Values V) (c : Check V) where
  -- A report that can be read, matches the key, does not predate its latest schedule, and is accepted.
  pub record IsAnswer (key : Text) (o : Object) : Type 0 where
    pub payload : Dict V
    pub is_read : c.cat_json o.uri ≡ some payload
    pub matches :
        payload_matches values c.platform c.account_scope payload c.services (targets values c)
        ≡ some key
    pub is_current : predates values c o.updated (required_due_at values c key) ≡ false
    pub reason : Reason
    pub is_accepted : is_accepted_report values c.rules payload ≡ some (true, reason)

  abbrev outcome : Text → Option (Option (Text × Kept)) → Bool
  outcome key r = elim r [ none ↦ false | some a ↦ hit values c key a ]

  hit-judge :
      (key k : Text) (o : Object) (payload : Dict V) (r : Option (Bool × Reason))
      → outcome key (judge values c o k payload r) ≡ true
      → (key ≡ k) × (reason : Reason) × (r ≡ some (true, reason))
  hit-judge key k o payload none h = cc
  hit-judge key k o payload (some (false, reason)) h = cc
  hit-judge key k o payload (some (true, reason)) h = (text_eq→path key k h, reason, refl)

  hit-matched :
      (key : Text) (o : Object) (payload : Dict V) (m : Option Text)
      → outcome key (matched values c o payload m) ≡ true
      → (m ≡ some key)
        × (predates values c o.updated (required_due_at values c key) ≡ false)
        × (reason : Reason) × (is_accepted_report values c.rules payload ≡ some (true, reason))
  hit-matched key o payload none h = cc
  hit-matched key o payload (some k) h =
      elim (Bool-cases (predates values c o.updated (required_due_at values c k))) [
        | inl old ↦ ground (arith, old)
        | inr current ↦
            let (same, reason, accepted) =
              hit-judge key k o payload (is_accepted_report values c.rules payload)
                (ground (arith, current, h)) in
            (
              ap some (sym same),
              subst (λ j. predates values c o.updated (required_due_at values c j) ≡ false)
                  (sym same) current,
              reason,
              accepted,
            )
      ]

  hit-read :
      (key : Text) (o : Object) (r : Option (Dict V))
      → c.cat_json o.uri ≡ r
      → outcome key (read values c o r) ≡ true
      → IsAnswer key o
  hit-read key o none same h = cc
  hit-read key o (some payload) same h =
      let (matches, current, reason, accepted) =
        hit-matched key o payload
          (payload_matches values c.platform c.account_scope payload c.services (targets values c))
          h in
      record {
        payload = payload;
        is_read = same;
        matches = matches;
        is_current = current;
        reason = reason;
        is_accepted = accepted;
      }

  hit-IsAnswer : (key : Text) (o : Object) → answers values c key o ≡ true → IsAnswer key o
  unfolding answer_of
  hit-IsAnswer key o h = hit-read key o (c.cat_json o.uri) refl h

  IsAnswer-hit : (key : Text) (o : Object) → IsAnswer key o → answers values c key o ≡ true
  unfolding answer_of
  IsAnswer-hit key o a =
      ap (λ r. outcome key (read values c o r)) a.is_read
      ∙ ap (λ m. outcome key (matched values c o a.payload m)) a.matches
      ∙ ap
          (λ b. outcome key (
            if b
            then some none
            else judge values c o key a.payload (is_accepted_report values c.rules a.payload)))
          a.is_current
      ∙ ap (λ r. outcome key (judge values c o key a.payload r)) a.is_accepted
      ∙ text_eq_refl key

  any-Some :
      (key : Text) (os : List Object)
      → any (answers values c key) os ≡ true
      → Some (IsAnswer key) os
  any-Some key [] h = cc
  any-Some key (o ∷ os) h = elim (Bool-cases (answers values c key o)) [
    | inl here ↦ inl (hit-IsAnswer key o here)
    | inr absent ↦ inr (any-Some key os (ground (arith, absent, h)))
  ]

  Some-any :
      (key : Text) (os : List Object)
      → Some (IsAnswer key) os
      → any (answers values c key) os ≡ true
  Some-any key [] h = elim h [ ]
  Some-any key (o ∷ os) (inl here) = ground (arith, IsAnswer-hit key o here)
  Some-any key (o ∷ os) (inr later) = ground (arith, Some-any key os later)

  answered_by :
      (s : Inspected)
      → is_empty (required_keys values c) ≡ false
      → inspect values c
          (read_objects values c)
          (record { accepted = []; accepted_by_service = [] })
        ≡ some s
      → (key : Text)
      → contains key s.accepted_by_service ≡ any (answers values c key) (read_objects values c)
  unfolding contains lookup
  answered_by s h e key =
      inspect-contains values c (read_objects values c)
        (record { accepted = []; accepted_by_service = [] }) s key h e

  verdict-ok :
      (s : Inspected)
      → is_empty (required_keys values c) ≡ false
      → s.accepted ≡ []
      → (verdict values c s ≡ ok)
        ↔ (all (λ key. contains key s.accepted_by_service) (required_keys values c) ≡ true)
  verdict-ok s h none_kept = (λ e. ground (arith, h, none_kept, e), λ e. ground (arith, h, e))

  -- Where some key is due and `main` ends, it ends well exactly if every due key has a report among
  -- those that are read that matches the key, does not predate its latest schedule and is accepted.
  pub heartbeat-IsAnswered :
      (v : Outcome)
      → is_empty (required_keys values c) ≡ false
      → heartbeat values c ≡ some v
      → (v ≡ ok) ↔ (
          (key : Text)
          → mem_text key (required_keys values c) ≡ true
          → Some (IsAnswer key) (read_objects values c))
  unfolding heartbeat
  heartbeat-IsAnswered v h e =
      let (s, same, ended) =
        elim-some (inspect values c (read_objects values c) _) _ v
          (configured (is_empty c.globs) _ v e) in
      let bound = answered_by s h same in
      let none_kept = inspect-accepted values c (read_objects values c) _ s h same in
      let (to_all, of_all) = verdict-ok s h none_kept in
      let (to_each, of_each) =
        all_iff (λ key. contains key s.accepted_by_service) (required_keys values c) in
      (
        λ is_ok key due.
            any-Some key (read_objects values c)
              (sym (bound key) ∙ to_each (to_all (some-injective _ _ ended ∙ is_ok)) key due),
        λ each.
            sym (some-injective _ _ ended)
            ∙ of_all (
                of_each
                  (λ key due. bound key ∙ Some-any key (read_objects values c) (each key due))),
      )
