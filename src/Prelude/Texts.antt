-- ===== src/Prelude/Texts.antt =====
-- Python's `str` as the list of its code points, with the operations that the program uses on it.
-- Blanks and letters are those of ASCII: the program's symbols, ids, tags and statuses are ASCII.
use Prim.Native.Nat.{ℕ, ◌+◌, ◌-◌}
use Prim.Native.Char.{code}
use Prim.Native.String.{String}
use mathlib.Core.Path.{◌≡◌, refl}
use mathlib.Core.Logic.{◌↔◌}
use mathlib.Core.Bool.{Bool, true, false, ◌&&◌, ◌||◌}
use mathlib.Core.List.{List, [], ◌∷◌, map, reverse}
use native.Mathlib.Omega.{arith}
use ibkrquant.Prelude.Lists.{All, all}
use ibkrquant.Prelude.Tests.{ltb, leb, ◌==◌, if◌then◌else◌}

abbrev pub Text : Type 0
Text = List ℕ

-- A literal of the source.
abbrev pub codes : String → Text
codes String.[] = []
codes (String.◌∷◌ c s) = code c ∷ codes s

unfoldable pub text_eq : Text → Text → Bool
text_eq [] [] = true
text_eq (a ∷ s) (b ∷ t) = a == b && text_eq s t
text_eq _ _ = false

pub text_eq→path : (s t : Text) → text_eq s t ≡ true → s ≡ t
unfolding text_eq
text_eq→path [] [] _ = refl
text_eq→path [] (b ∷ t) h = cc
text_eq→path (a ∷ s) [] h = cc
text_eq→path (a ∷ s) (b ∷ t) h = ground (arith, text_eq→path s t)

pub text_eq_refl : (s : Text) → text_eq s s ≡ true
unfolding text_eq
text_eq_refl [] = refl
text_eq_refl (a ∷ s) = ground (arith, text_eq_refl s)

pub text_eq_iff : (s t : Text) → (text_eq s t ≡ true) ↔ (s ≡ t)
text_eq_iff s t = (text_eq→path s t, λ e. rw e (text_eq_refl t))

-- `text in {…}`
unfoldable pub mem_text : Text → List Text → Bool
mem_text s [] = false
mem_text s (t ∷ ts) = text_eq s t || mem_text s ts

-- `set(xs) == set(ys)`
abbrev pub same_set : List Text → List Text → Bool
same_set xs ys = all (λ x. mem_text x ys) xs && all (λ y. mem_text y xs) ys

abbrev pub is_blank : ℕ → Bool
is_blank c = c == 32 || (leb 9 c && leb c 13) || (leb 28 c && leb c 31)

unfoldable pub lstrip : Text → Text
lstrip [] = []
lstrip (c ∷ s) = if is_blank c then lstrip s else c ∷ s

-- `text.strip()`
unfoldable pub strip : Text → Text
unfolding lstrip
strip s = reverse (lstrip (reverse (lstrip s)))

abbrev upper_char : ℕ → ℕ
upper_char c = if leb b'a' c && leb c b'z' then c - 32 else c

-- `text.upper()`
unfoldable pub upper : Text → Text
upper = map upper_char

abbrev lower_char : ℕ → ℕ
lower_char c = if leb b'A' c && leb c b'Z' then c + 32 else c

-- `text.lower()`
unfoldable pub lower : Text → Text
lower = map lower_char

-- `text.startswith(prefix)`
unfoldable pub starts_with : Text → Text → Bool
starts_with t [] = true
starts_with [] (p ∷ ps) = false
starts_with (c ∷ t) (p ∷ ps) = c == p && starts_with t ps

-- `str(symbol or "").strip().upper()`
unfoldable pub normalize : Text → Text
unfolding strip upper
normalize s = upper (strip s)

-- `not text`
abbrev pub is_blank_text : Text → Bool
is_blank_text [] = true
is_blank_text (_ ∷ _) = false

-- Python's order of texts, by code points.
unfoldable pub text_leb : Text → Text → Bool
text_leb [] t = true
text_leb (a ∷ s) [] = false
text_leb (a ∷ s) (b ∷ t) = ltb a b || (a == b && text_leb s t)

insert_sorted : Text → List Text → List Text
insert_sorted s [] = s ∷ []
insert_sorted s (t ∷ ts) = if text_leb s t then s ∷ t ∷ ts else t ∷ insert_sorted s ts

-- `sorted(texts)`
unfoldable pub sorted : List Text → List Text
unfolding insert_sorted text_leb
sorted [] = []
sorted (s ∷ ts) = insert_sorted s (sorted ts)

insert_sorted-All {ℓ} :
    (P : Text → Type ℓ) (s : Text) (ts : List Text) → P s → All P ts → All P (insert_sorted s ts)
unfolding insert_sorted
insert_sorted-All P s [] h hs = (h, tt)
insert_sorted-All P s (t ∷ ts) h hs = go (text_leb s t) h hs (insert_sorted-All P s ts h hs.1)
  where
    go :
        (b : Bool)
        → P s
        → All P (t ∷ ts)
        → All P (insert_sorted s ts)
        → All P (if b then s ∷ t ∷ ts else t ∷ insert_sorted s ts)
    go true h hs r = (h, hs)
    go false h hs r = (hs.0, r)

pub sorted-All {ℓ} : (P : Text → Type ℓ) (ts : List Text) → All P ts → All P (sorted ts)
unfolding sorted
sorted-All P [] hs = tt
sorted-All P (t ∷ ts) hs = insert_sorted-All P t (sorted ts) hs.0 (sorted-All P ts hs.1)

-- `dict.fromkeys(texts)`: the first occurrences, in order, given those seen before.
unfoldable pub unique_from : List Text → List Text → List Text
unfolding mem_text
unique_from seen [] = []
unique_from seen (t ∷ ts) =
    let rest = unique_from (t ∷ seen) ts in if mem_text t seen then rest else t ∷ rest

unfoldable pub unique : List Text → List Text
unfolding unique_from
unique = unique_from []

pub text_leb-total : (s t : Text) → text_leb s t ≡ false → text_leb t s ≡ true
unfolding text_leb
text_leb-total [] t h = cc
text_leb-total (a ∷ s) [] h = refl
text_leb-total (a ∷ s) (b ∷ t) h = ground (arith, text_leb-total s t)

pub text_leb_antisymm : (s t : Text) → text_leb s t ≡ true → text_leb t s ≡ true → s ≡ t
unfolding text_leb
text_leb_antisymm [] [] h k = refl
text_leb_antisymm [] (b ∷ t) h k = cc
text_leb_antisymm (a ∷ s) [] h k = cc
text_leb_antisymm (a ∷ s) (b ∷ t) h k = ground (arith, text_leb_antisymm s t)

pub text_leb_trans :
    (s t u : Text) → text_leb s t ≡ true → text_leb t u ≡ true → text_leb s u ≡ true
unfolding text_leb
text_leb_trans [] t u h k = refl
text_leb_trans (a ∷ s) [] u h k = cc
text_leb_trans (a ∷ s) (b ∷ t) [] h k = cc
text_leb_trans (a ∷ s) (b ∷ t) (c ∷ u) h k = ground (arith, text_leb_trans s t u)
