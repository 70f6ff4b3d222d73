-- ===== src/Heartbeat/Cron/Fields.antt =====
-- scripts/runtime_heartbeat_policy.py: the sets that `_cron_field_values` returns.
use ibkrquant.Prelude.{
  ℕ, ◌≤◌, ◌≡◌, refl, Bool, true, false, ◌⊎◌, inl, inr, List, [], ◌∷◌, Option, none, some, Text,
  Dict, All, All-append, if◌then◌else◌, arith, strip, lower, codes, mem_text, is_blank_text,
}
use mathlib.Core.Path.{subst}
use ibkrquant.Prelude.Int.{ℤ, pos, pos_part}
use ibkrquant.Heartbeat.Cron.{
  every, only, range, clip, clip_all, at_least_one, int_text, split, split_once, base_span, stepped,
  part_values, parts_values, cron_field_values, with_step, join_parts, only_values,
}

-- A value of the field, or the Sunday that is written 7.
abbrev pub InField : ℕ → ℕ → ℕ → Type 0
InField minimum maximum v = ((minimum ≤ v) × (v ≤ maximum)) ⊎ ((maximum ≡ 6) × (v ≡ 0))

clipped :
    (minimum maximum v : ℕ) (a b : Bool)
    → (a ≡ true → (minimum ≤ v) × (v ≤ maximum))
    → (b ≡ true → maximum ≡ 6)
    → All (InField minimum maximum) (if a then v ∷ [] else if b then 0 ∷ [] else [])
clipped minimum maximum v true b ha hb = (inl (ha refl), tt)
clipped minimum maximum v false true ha hb = (inr (hb refl, refl), tt)
clipped minimum maximum v false false ha hb = tt

clip-InField : (minimum maximum v : ℕ) → All (InField minimum maximum) (clip minimum maximum v)
clip-InField minimum maximum v =
    clipped minimum maximum v _ _ (λ h. (ground arith, ground arith)) (λ h. ground arith)

clip_all-InField :
    (minimum maximum : ℕ) (vs : List ℕ)
    → All (InField minimum maximum) (clip_all minimum maximum vs)
clip_all-InField minimum maximum [] = tt
clip_all-InField minimum maximum (v ∷ vs) =
    All-append (InField minimum maximum) (clip minimum maximum v) (clip_all minimum maximum vs)
      (clip-InField minimum maximum v) (clip_all-InField minimum maximum vs)

-- The values of a result, if there are any.
abbrev pub Holds : (ℕ → Type 0) → Option (List ℕ) → Type 0
Holds P none = Unit
Holds P (some vs) = All P vs

with_step-InField :
    (minimum maximum : ℕ) (step : Option ℤ) (span : Option (ℤ × ℤ))
    → Holds (InField minimum maximum) (with_step minimum maximum step span)
with_step-InField minimum maximum none none = tt
with_step-InField minimum maximum none (some _) = tt
with_step-InField minimum maximum (some step) none = tt
with_step-InField minimum maximum (some step) (some (first, last)) =
    clip_all-InField minimum maximum (range (pos_part first) last (at_least_one step))

stepped-InField :
    (minimum maximum : ℕ) (names : Dict ℕ) (part : Text) (cut : Option (Text × Text))
    → Holds (InField minimum maximum) (stepped minimum maximum names part cut)
stepped-InField minimum maximum names part none =
    with_step-InField minimum maximum (some (pos 1)) (base_span minimum maximum names part)
stepped-InField minimum maximum names part (some (base, step)) =
    with_step-InField minimum maximum (int_text (strip step)) (base_span minimum maximum names base)

part_values-InField :
    (minimum maximum : ℕ) (names : Dict ℕ) (part : Text)
    → Holds (InField minimum maximum) (part_values minimum maximum names part)
unfolding part_values
part_values-InField minimum maximum names part =
    stepped-InField minimum maximum names part (split_once b'/' part)

join_parts-Holds :
    (P : ℕ → Type 0) (a b : Option (List ℕ)) → Holds P a → Holds P b → Holds P (join_parts a b)
join_parts-Holds P none none ha hb = tt
join_parts-Holds P none (some ys) ha hb = tt
join_parts-Holds P (some xs) none ha hb = tt
join_parts-Holds P (some xs) (some ys) ha hb = All-append P xs ys ha hb

if-Holds :
    (P : ℕ → Type 0) (c : Bool) (a b : Option (List ℕ))
    → Holds P a
    → Holds P b
    → Holds P (if c then a else b)
if-Holds P true a b ha hb = ha
if-Holds P false a b ha hb = hb

parts_values-InField :
    (minimum maximum : ℕ) (names : Dict ℕ) (ps : List Text)
    → Holds (InField minimum maximum) (parts_values minimum maximum names ps)
unfolding parts_values
parts_values-InField minimum maximum names [] = tt
parts_values-InField minimum maximum names (p ∷ ps) =
    let rest = parts_values-InField minimum maximum names ps in
    if-Holds (InField minimum maximum) (is_blank_text (strip p)) _ _ rest (
      join_parts-Holds (InField minimum maximum) (part_values minimum maximum names (strip p))
        (parts_values minimum maximum names ps)
        (part_values-InField minimum maximum names (strip p)) rest)

only-Holds :
    (P : ℕ → Type 0) (c : Bool) (o : Option (List ℕ)) (vs : List ℕ)
    → Holds P o
    → (if c then some every else only_values o) ≡ some (only vs)
    → All P vs
only-Holds P true o vs ho h = cc
only-Holds P false none vs ho h = cc
only-Holds P false (some ws) vs ho h = let same : ws ≡ vs = cc in subst (All P) same ho

-- The values that a field takes in lie between its minimum and its maximum, whatever the expression
-- says; a 7 in the field of the weekdays counts as 0.
pub cron_field_values-InField :
    (minimum maximum : ℕ) (names : Dict ℕ) (field : Text) (vs : List ℕ)
    → cron_field_values minimum maximum names field ≡ some (only vs)
    → All (InField minimum maximum) vs
unfolding cron_field_values
cron_field_values-InField minimum maximum names field vs h =
    let parts = split b',' (lower (strip field)) in
    only-Holds (InField minimum maximum) (mem_text (lower (strip field)) ([] ∷ codes "*" ∷ []))
      (parts_values minimum maximum names parts) vs
      (parts_values-InField minimum maximum names parts) h
