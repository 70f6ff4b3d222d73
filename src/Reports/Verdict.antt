-- ===== src/Reports/Verdict.antt =====
-- scripts/execution_report_heartbeat.py: `main`, from the list of reports to the verdict.
use ibkrquant.Prelude.{
  ℕ, zero, suc, ◌*◌, Bool, true, false, ◌&&◌, not, List, [], ◌∷◌, ◌++◌, Option, none, some, Text,
  text_eq, ◌||◌, mem_text, is_empty, is_blank_text, keep, map, all, length, ltb, leb, if◌then◌else◌,
  Dict, insert, contains, strip, values, get_or,
}
use ibkrquant.Reports.{Values, Rules, Reason, report_execution_backend}
use ibkrquant.Reports.Accepted.{is_accepted_report}
use ibkrquant.Reports.Matching.{Target, target_key, payload_matches}

-- An entry of a listing: its URI before `#`, and the time of its last change if it has one.
pub record Entry : Type 0 where
  pub uri : Text
  pub updated : Option ℕ

pub record Object : Type 0 where
  pub uri : Text
  pub updated : ℕ

-- What is kept of a report that is accepted.
pub record Kept : Type 0 where
  pub uri : Text
  pub updated : ℕ
  pub reason : Reason
  pub backend : Text

pub record Inspected : Type 0 where
  pub accepted : List Kept
  pub accepted_by_service : Dict Kept

-- The targets that were due, with the time of their latest schedule.
pub record DueTarget : Type 0 where
  pub target : Target
  pub latest_due_at : Option ℕ

-- What `main` has before it lists the reports, with a number of reports that is not negative, and the
-- calls that it makes then: a listing, where `none` is its error, and the reading of a report, where
-- `none` is one that cannot be read.
pub record Check (V : Type 0) : Type 0 where
  pub since : ℕ
  pub max_reports : ℕ
  pub globs : List Text
  pub list_objects : Text → Option (List Entry)
  pub cat_json : Text → Option (Dict V)
  pub rules : Rules
  pub platform : Text
  pub account_scope : Text
  pub due_targets : List DueTarget
  pub services : List Text

pub data Outcome : Type 0 where
  ok alert : Outcome

abbrev pub take {ℓ} : {A : Type ℓ} → ℕ → List A → List A
take zero xs = []
take (suc n) [] = []
take (suc n) (x ∷ xs) = x ∷ take n xs

-- `objects[uri] = (uri, updated)`, of the entries that are recent
abbrev recent : ℕ → Text → Option ℕ → Dict Object → Dict Object
recent since uri none d = d
recent since uri (some updated) d =
    if not (is_blank_text uri) && leb since updated
    then insert uri (record { uri = uri; updated = updated }) d
    else d

unfoldable pub add_entries : ℕ → List Entry → Dict Object → Dict Object
add_entries since [] d = d
add_entries since (e ∷ es) d = add_entries since es (recent since e.uri e.updated d)

unfoldable pub list_all : ℕ → (Text → Option (List Entry)) → List Text → Dict Object → Dict Object
list_all since list [] d = d
list_all since list (g ∷ gs) d = list_all since list gs (add_entries since (get_or (list g) []) d)

-- `sorted(..., key=lambda item: item[1], reverse=True)`, which keeps the order of equal times
unfoldable pub insert_newest : Object → List Object → List Object
insert_newest o [] = o ∷ []
insert_newest o (p ∷ ps) = if leb p.updated o.updated then o ∷ p ∷ ps else p ∷ insert_newest o ps

unfoldable pub newest_first : List Object → List Object
newest_first [] = []
newest_first (o ∷ os) = insert_newest o (newest_first os)

abbrev pub max : ℕ → ℕ → ℕ
max a b = if ltb a b then b else a

abbrev pub min : ℕ → ℕ → ℕ
min a b = if ltb b a then b else a

module _ {V : Type 0} (values' : Values V) (c : Check V) where
  -- `required_targets`
  unfoldable pub required_targets : List DueTarget
  required_targets =
      keep (λ t. is_empty c.services || mem_text (strip (t.target).service) c.services)
        c.due_targets

  abbrev pub targets : List Target
  targets = map (λ t. t.target) required_targets

  -- `required_keys`
  unfoldable pub required_keys : List Text
  required_keys =
      map target_key targets
      ++ keep (λ s. not (mem_text s (map (λ t. strip t.service) targets))) c.services

  abbrev due_from : List DueTarget → Text → Option ℕ
  due_from [] key = none
  due_from (t ∷ ts) key =
      let rest = due_from ts key in
      elim rest [
        | some at ↦ some at
        | none ↦ if text_eq key (target_key t.target) then t.latest_due_at else none
      ]

  -- `required_due_at.get(key)`: the last target with the key that has a time
  unfoldable pub required_due_at : Text → Option ℕ
  required_due_at = due_from required_targets

  abbrev pub predates : ℕ → Option ℕ → Bool
  predates updated none = false
  predates updated (some due) = ltb updated due

  -- The key that a report answers, with what is kept of it: none if it cannot be read, does not match,
  -- predates the schedule or is not accepted. The outer `none` is an exception.
  abbrev pub judge : Object → Text → Dict V → Option (Bool × Reason) → Option (Option (Text × Kept))
  judge o key payload none = none
  judge o key payload (some (false, reason)) = some none
  judge o key payload (some (true, reason)) = some (
      some (
        key,
        record {
          uri = o.uri;
          updated = o.updated;
          reason = reason;
          backend = report_execution_backend values' payload;
        },
      ))

  abbrev pub matched : Object → Dict V → Option Text → Option (Option (Text × Kept))
  matched o payload none = some none
  matched o payload (some key) =
      if predates o.updated (required_due_at key)
      then some none
      else judge o key payload (is_accepted_report values' c.rules payload)

  abbrev pub read : Object → Option (Dict V) → Option (Option (Text × Kept))
  read o none = some none
  read o (some payload) =
      matched o payload
        (payload_matches values' c.platform c.account_scope payload c.services targets)

  unfoldable pub answer_of : Object → Option (Option (Text × Kept))
  answer_of o = read o (c.cat_json o.uri)

  abbrev pub keep_answer : Option (Text × Kept) → Inspected → Inspected
  keep_answer none s = s
  keep_answer (some (key, kept)) s =
      if is_empty required_keys
      then record s { accepted = s.accepted ++ (kept ∷ []) }
      else if contains key s.accepted_by_service
      then s
      else record s { accepted_by_service = insert key kept s.accepted_by_service }

  -- the loop over the reports
  unfoldable pub inspect : List Object → Inspected → Option Inspected
  inspect [] s = some s
  inspect (o ∷ os) s = elim (answer_of o) [ none ↦ none | some a ↦ inspect os (keep_answer a s) ]

  abbrev pub reports_to_read : ℕ
  reports_to_read =
      if is_empty required_keys
      then c.max_reports
      else max c.max_reports (min 200 (length required_keys * 4))

  -- the reports that are read
  unfoldable pub read_objects : List Object
  read_objects =
      take reports_to_read (newest_first (values (list_all c.since c.list_objects c.globs [])))

  abbrev pub verdict : Inspected → Outcome
  verdict s =
      if not (is_empty required_keys)
        && all (λ key. contains key s.accepted_by_service) required_keys
      then ok
      else if not (is_empty s.accepted)
      then ok
      else alert

  -- `main`, from the list of URIs on; `none` is an exception
  unfoldable pub heartbeat : Option Outcome
  heartbeat =
      if is_empty c.globs
      then none
      else elim (inspect read_objects (record { accepted = []; accepted_by_service = [] })) [
        | none ↦ none
        | some s ↦ some (verdict s)
      ]
