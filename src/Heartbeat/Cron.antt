-- ===== src/Heartbeat/Cron.antt =====
-- scripts/runtime_heartbeat_policy.py: the cron expressions, `_cron_field_values` and `cron_matches`.
-- `int(text)` is modelled on ASCII digits with an optional sign, without Python's underscores.
pub mod Range
pub mod Fields
use ibkrquant.Prelude.{
  ℕ, zero, suc, ◌+◌, ◌-◌, ◌*◌, ◌/◌, ◌%◌, Bool, true, false, ◌&&◌, ◌||◌, not, List, [], ◌∷◌, ◌++◌,
  Option, none, some, Text, codes, strip, lower, text_eq, is_blank_text, keep, map, mem_text, Dict,
  lookup, is_blank, ltb, leb, ◌==◌, any, length, if◌then◌else◌,
}
use ibkrquant.Prelude.Int.{ℤ, pos, negsuc, pos_part, sub_ℕ}

-- `text.split(separator)`, for a separator of one character
abbrev push : ℕ → List Text → List Text
push c [] = (c ∷ []) ∷ []
push c (t ∷ ts) = (c ∷ t) ∷ ts

unfoldable pub split : ℕ → Text → List Text
split sep [] = [] ∷ []
split sep (c ∷ t) = if c == sep then [] ∷ split sep t else push c (split sep t)

-- `text.split(separator, 1)`: the text before the first one and the text after it
unfoldable pub split_once : ℕ → Text → Option (Text × Text)
split_once sep [] = none
split_once sep (c ∷ t) =
    let rest = split_once sep t in
    if c == sep
    then some ([], t)
    else elim rest [ none ↦ none | some (before, after) ↦ some (c ∷ before, after) ]

-- `text.split()`
unfoldable pub words : Text → List Text
unfolding split
words t =
    keep (λ w. not (is_blank_text w)) (split b' ' (map (λ c. if is_blank c then b' ' else c) t))

-- `int(text)`
digits : ℕ → Text → Option ℕ
digits acc [] = some acc
digits acc (c ∷ t) = if leb b'0' c && leb c b'9' then digits (acc * 10 + (c - b'0')) t else none

unsigned : Text → Option ℕ
unfolding digits
unsigned [] = none
unsigned (c ∷ t) = digits 0 (c ∷ t)

unfoldable pub int_text : Text → Option ℤ
unfolding unsigned
int_text [] = none
int_text (c ∷ t) =
    if c == b'-'
    then elim (unsigned t) [ none ↦ none | some n ↦ some (sub_ℕ 0 n) ]
    else elim (unsigned (if c == b'+' then t else c ∷ t)) [ none ↦ none | some n ↦ some (pos n) ]

-- `range(start, last + 1, step)`, on fuel
unfoldable pub range_from : ℕ → ℕ → ℕ → ℕ → List ℕ
range_from zero start last step = []
range_from (suc n) start last step =
    let rest = range_from n (start + step) last step in if leb start last then start ∷ rest else []

abbrev pub range : ℕ → ℤ → ℕ → List ℕ
range start (pos last) step = range_from (suc last) start last step
range start (negsuc last) step = []

-- the values that a field takes in: all of them, or a set
pub data FieldValues : Type 0 where
  every : FieldValues
  only : List ℕ → FieldValues

-- what one value of the range adds to the set
abbrev pub clip : ℕ → ℕ → ℕ → List ℕ
clip minimum maximum v =
    if leb minimum v && leb v maximum then v ∷ [] else if maximum == 6 && v == 7 then 0 ∷ [] else []

abbrev pub clip_all : ℕ → ℕ → List ℕ → List ℕ
clip_all minimum maximum [] = []
clip_all minimum maximum (v ∷ vs) = clip minimum maximum v ++ clip_all minimum maximum vs

-- `_cron_token_value`; `none` is the ValueError
unfoldable pub cron_token_value : Dict ℕ → Text → Option ℤ
unfolding int_text lookup lower strip
cron_token_value names token = elim (lookup (lower (strip token)) names) [
  | none ↦ int_text (lower (strip token))
  | some n ↦ some (pos n)
]

abbrev span_of : Option ℤ → Option ℤ → Option (ℤ × ℤ)
span_of (some a) (some b) = some (a, b)
span_of _ _ = none

-- the first and the last value of a part of a field
unfoldable pub base_span : ℕ → ℕ → Dict ℕ → Text → Option (ℤ × ℤ)
unfolding cron_token_value split_once text_eq
base_span minimum maximum names base =
    if text_eq base (codes "*")
    then some (pos minimum, pos maximum)
    else elim (split_once b'-' base) [
      | some (first, last) ↦ span_of (cron_token_value names first) (cron_token_value names last)
      | none ↦ span_of (cron_token_value names base) (cron_token_value names base)
    ]

-- `max(1, int(raw_step))`
abbrev pub at_least_one : ℤ → ℕ
at_least_one a = if leb 1 (pos_part a) then pos_part a else 1

abbrev pub with_step : ℕ → ℕ → Option ℤ → Option (ℤ × ℤ) → Option (List ℕ)
with_step minimum maximum (some step) (some (first, last)) =
    some (clip_all minimum maximum (range (pos_part first) last (at_least_one step)))
with_step minimum maximum _ _ = none

abbrev pub stepped : ℕ → ℕ → Dict ℕ → Text → Option (Text × Text) → Option (List ℕ)
stepped minimum maximum names part none =
    with_step minimum maximum (some (pos 1)) (base_span minimum maximum names part)
stepped minimum maximum names part (some (base, step)) =
    with_step minimum maximum (int_text (strip step)) (base_span minimum maximum names base)

-- what a part of a field stands for
unfoldable pub part_values : ℕ → ℕ → Dict ℕ → Text → Option (List ℕ)
unfolding base_span range_from
part_values minimum maximum names part = stepped minimum maximum names part (split_once b'/' part)

abbrev pub join_parts : Option (List ℕ) → Option (List ℕ) → Option (List ℕ)
join_parts (some xs) (some ys) = some (xs ++ ys)
join_parts _ _ = none

-- the loop over the parts of a field
unfoldable pub parts_values : ℕ → ℕ → Dict ℕ → List Text → Option (List ℕ)
unfolding part_values
parts_values minimum maximum names [] = some []
parts_values minimum maximum names (p ∷ ps) =
    let rest = parts_values minimum maximum names ps in
    if is_blank_text (strip p)
    then rest
    else join_parts (part_values minimum maximum names (strip p)) rest

abbrev pub only_values : Option (List ℕ) → Option FieldValues
only_values none = none
only_values (some vs) = some (only vs)

-- `_cron_field_values`
unfoldable pub cron_field_values : ℕ → ℕ → Dict ℕ → Text → Option FieldValues
unfolding parts_values split
cron_field_values minimum maximum names field =
    let text = lower (strip field) in
    if mem_text text ([] ∷ codes "*" ∷ [])
    then some every
    else only_values (parts_values minimum maximum names (split b',' text))

-- what `cron_matches` reads of a datetime
pub record Moment : Type 0 where
  pub minute : ℕ
  pub hour : ℕ
  pub day : ℕ
  pub month : ℕ
  pub isoweekday : ℕ

abbrev pub member : ℕ → List ℕ → Bool
member v = any (λ w. v == w)

abbrev pub takes : FieldValues → ℕ → Bool
takes every v = true
takes (only vs) v = member v vs

abbrev pub is_every : FieldValues → Bool
is_every every = true
is_every (only _) = false

abbrev dow_names : Dict ℕ
dow_names =
    (codes "sun", 0)
    ∷ (codes "mon", 1)
    ∷ (codes "tue", 2)
    ∷ (codes "wed", 3)
    ∷ (codes "thu", 4)
    ∷ (codes "fri", 5)
    ∷ (codes "sat", 6)
    ∷ []

-- the tests on the five fields
abbrev pub fields_match :
    FieldValues → FieldValues → FieldValues → FieldValues → FieldValues → Moment → Bool
fields_match minute hour dom month dow t =
    let day_of_month = takes dom t.day in
    let day_of_week = takes dow (t.isoweekday % 7) in
    takes minute t.minute
    && takes hour t.hour
    && takes month t.month
    && (if not (is_every dom) && not (is_every dow)
        then day_of_month || day_of_week
        else day_of_month && day_of_week)

abbrev five :
    Option FieldValues
    → Option FieldValues
    → Option FieldValues
    → Option FieldValues
    → Option FieldValues
    → Moment
    → Option Bool
five (some a) (some b) (some c) (some d) (some e) t = some (fields_match a b c d e t)
five _ _ _ _ _ t = none

abbrev match_fields : List Text → Moment → Option Bool
match_fields (minute ∷ hour ∷ dom ∷ month ∷ dow ∷ []) t =
    five (cron_field_values 0 59 [] minute) (cron_field_values 0 23 [] hour)
      (cron_field_values 1 31 [] dom) (cron_field_values 1 12 [] month)
      (cron_field_values 0 6 dow_names dow) t
match_fields _ t = some false

abbrev padded : List Text → List Text
padded (minute ∷ hour ∷ []) = minute ∷ hour ∷ codes "*" ∷ codes "*" ∷ codes "*" ∷ []
padded fields = fields

-- `cron_matches`; `none` is the ValueError of a field
unfoldable pub cron_matches : Text → Moment → Option Bool
unfolding words cron_field_values
cron_matches schedule t = match_fields (padded (words schedule)) t
