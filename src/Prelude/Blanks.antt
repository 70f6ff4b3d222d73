-- ===== src/Prelude/Blanks.antt =====
-- `text.strip()` leaves nothing to strip.
use mathlib.Core.Path.{◌≡◌, refl, sym, ◌∙◌, ap, subst}
use mathlib.Core.Bool.{Bool, true, false}
use mathlib.Core.List.{[], ◌∷◌, ◌++◌, reverse, reverse-append, reverse-reverse}
use ibkrquant.Prelude.Tests.{if◌then◌else◌}
use ibkrquant.Prelude.Texts.{Text, is_blank, lstrip, strip}

-- The text does not begin with a blank.
abbrev Clean : Text → Type 0
Clean [] = Unit
Clean (c ∷ s) = is_blank c ≡ false

if-Clean :
    (b : Bool) (c : _) (s t : Text) → is_blank c ≡ b → Clean t → Clean (if b then t else c ∷ s)
if-Clean true c s t e h = h
if-Clean false c s t e h = e

lstrip-Clean : (s : Text) → Clean (lstrip s)
unfolding lstrip
lstrip-Clean [] = tt
lstrip-Clean (c ∷ s) = if-Clean (is_blank c) c s (lstrip s) refl (lstrip-Clean s)

Clean-lstrip : (s : Text) → Clean s → lstrip s ≡ s
unfolding lstrip
Clean-lstrip [] h = refl
Clean-lstrip (c ∷ s) h = rw h refl

Clean-prefix : (s t : Text) → Clean (s ++ t) → Clean s
Clean-prefix [] t h = tt
Clean-prefix (c ∷ s) t h = h

if-suffix :
    (b : Bool) (c : _) (s t : Text)
    → ((p : Text) × (s ≡ p ++ t))
    → (p : Text) × (c ∷ s ≡ p ++ (if b then t else c ∷ s))
if-suffix true c s t (p, e) = (c ∷ p, ap (λ r. c ∷ r) e)
if-suffix false c s t h = ([], refl)

lstrip-suffix : (s : Text) → (p : Text) × (s ≡ p ++ lstrip s)
unfolding lstrip
lstrip-suffix [] = ([], refl)
lstrip-suffix (c ∷ s) = if-suffix (is_blank c) c s (lstrip s) (lstrip-suffix s)

-- What is left of a clean text when the blanks at its end are gone is clean.
rstrip-Clean : (s : Text) → Clean s → Clean (reverse (lstrip (reverse s)))
rstrip-Clean s h =
    let (p, e) = lstrip-suffix (reverse s) in
    let whole : s ≡ reverse (lstrip (reverse s)) ++ reverse p =
      sym (reverse-reverse s) ∙ ap reverse e ∙ reverse-append p (lstrip (reverse s)) in
    Clean-prefix (reverse (lstrip (reverse s))) (reverse p) (subst Clean whole h)

pub strip-strip : (s : Text) → strip (strip s) ≡ strip s
unfolding strip
strip-strip s =
    let z = reverse (lstrip (reverse (lstrip s))) in
    ap (λ t. reverse (lstrip (reverse t)))
      (Clean-lstrip z (rstrip-Clean (lstrip s) (lstrip-Clean s)))
    ∙ ap (λ t. reverse (lstrip t)) (reverse-reverse (lstrip (reverse (lstrip s))))
    ∙ ap reverse (Clean-lstrip (lstrip (reverse (lstrip s))) (lstrip-Clean (reverse (lstrip s))))
