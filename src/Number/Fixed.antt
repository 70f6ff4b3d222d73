-- ===== src/Number/Fixed.antt =====
-- Amounts in units of 1/10000, with `none` for NaN: numbers on which the program runs in the tests,
-- and which meet the assumptions made of a float.
use ibkrquant.Prelude.{
  ℕ, zero, suc, ◌+◌, ◌*◌, ◌/◌, ◌≡◌, refl, Bool, true, false, Option, none, some, arith,
}
use ibkrquant.Prelude.Int.{ℤ, pos, negsuc, pos_part, neg_part, ◌+ℤ◌, ◌-ℤ◌, leb_ℤ, ltb_ℤ, sub_ℕ}
use ibkrquant.Number.{Float, IsFloat}

abbrev pub Fixed : Type 0
Fixed = Option ℤ

abbrev unit : ℕ
unit = 10_000

abbrev ten_to : ℕ → ℕ
ten_to zero = 1
ten_to (suc k) = 10 * ten_to k

abbrev lift₂ : (ℤ → ℤ → ℤ) → Fixed → Fixed → Fixed
lift₂ g (some a) (some b) = some (g a b)
lift₂ g _ _ = none

abbrev test₂ : (ℤ → ℤ → Bool) → Fixed → Fixed → Bool
test₂ g (some a) (some b) = g a b
test₂ g _ _ = false

-- Both signs are rounded towards zero.
abbrev scale : ℕ → ℤ → ℤ → ℤ
scale k a b =
    sub_ℕ ((pos_part a * pos_part b + neg_part a * neg_part b) / k)
      ((pos_part a * neg_part b + neg_part a * pos_part b) / k)

abbrev quotient : ℤ → ℤ → ℤ
quotient a b =
    let size = pos_part b + neg_part b in
    sub_ℕ ((pos_part a * (unit * pos_part b) + neg_part a * (unit * neg_part b)) / (size * size))
      ((pos_part a * (unit * neg_part b) + neg_part a * (unit * pos_part b)) / (size * size))

abbrev round_to : ℕ → ℤ → ℤ
round_to k a = sub_ℕ ((pos_part a + k / 2) / k * k) ((neg_part a + k / 2) / k * k)

-- Down to a multiple of a positive step; other values stay.
abbrev floor_to : ℤ → ℤ → ℤ
floor_to (pos a) (pos (suc s)) = pos (a / suc s * suc s)
floor_to a _ = a

abbrev map₁ : (ℤ → ℤ) → Fixed → Fixed
map₁ g none = none
map₁ g (some a) = some (g a)

instance abbrev pub fixed_float : Float Fixed
fixed_float = record {
  zero = some (pos 0);
  lit = λ n k. some (pos (n * unit / ten_to k));
  add = lift₂ ◌+ℤ◌;
  sub = lift₂ ◌-ℤ◌;
  mul = lift₂ (scale unit);
  div = lift₂ quotient;
  le = test₂ leb_ℤ;
  lt = test₂ ltb_ℤ;
  round = λ a k. map₁ (round_to (unit / ten_to k)) a;
  trunc = map₁ (λ a. sub_ℕ (pos_part a / unit * unit) (neg_part a / unit * unit));
  floor_step = lift₂ floor_to;
}

abbrev pub dollars : ℕ → Fixed
dollars n = some (pos (n * unit))

floor_to-le : (a s : ℤ) → leb_ℤ (floor_to a s) a ≡ true
floor_to-le (pos a) (pos (suc s)) = grind arith
floor_to-le (pos a) (pos zero) = ground arith
floor_to-le (pos a) (negsuc s) = ground arith
floor_to-le (negsuc a) s = ground arith

floor_step-le :
    (a s : Fixed)
    → fixed_float.le a a ≡ true
    → fixed_float.lt fixed_float.zero s ≡ true
    → fixed_float.le (fixed_float.floor_step a s) a ≡ true
floor_step-le (some a) (some s) h p = floor_to-le a s
floor_step-le (some a) none h p = cc
floor_step-le none s h p = cc

pub Fixed-IsFloat : IsFloat Fixed
Fixed-IsFloat = record {
  le_trans = λ a b c. ground arith;
  refl_of_le = λ a b. ground arith;
  lt-eq-not-le = λ a b. ground arith;
  lt_irrefl = λ a. ground arith;
  lt-le = λ a b. ground arith;
  lt_asymm = λ a b. ground arith;
  zero_refl = refl;
  sub_nonneg = λ a b. ground arith;
  floor_step-le = floor_step-le;
}
