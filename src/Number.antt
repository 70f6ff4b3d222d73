-- ===== src/Number.antt =====
-- Python's `float` as far as the program uses it. Its arithmetic is not code of the repository, so
-- it is a parameter: `Float F` is the operations, and `IsFloat F` the documented behaviour that the
-- theorems name. NaN is the value that is not `<=` itself. The quantity rounding of
-- `quant_platform_kit.common.quantity` is among the operations.
pub mod Fixed
use ibkrquant.Prelude.{ℕ, ◌≡◌, Bool, true, false, not, ◌&&◌, List, [], ◌∷◌, if◌then◌else◌, arith}

pub record Float (F : Type 0) : Type 0 where
  pub zero : F
  -- the literal with these digits and this many decimals: `lit 95 2` is 0.95
  pub lit : ℕ → ℕ → F
  pub add : F → F → F
  pub sub : F → F → F
  pub mul : F → F → F
  pub div : F → F → F
  pub le : F → F → Bool
  pub lt : F → F → Bool
  -- `round(x, digits)`
  pub round : F → ℕ → F
  -- `int(x)`, as a float
  pub trunc : F → F
  -- `normalize_order_quantity(floor_to_quantity_step(quantity, step))`
  pub floor_step : F → F → F

module _ {F : Type 0} ⦃f : Float F⦄ where
  infixl 65 ◌⊕◌ ◌⊖◌
  infixl 70 ◌⊗◌ ◌⊘◌
  infix 50 ◌≼◌ ◌≺◌
  abbrev pub ◌⊕◌ : F → F → F
  ◌⊕◌ = f.add

  abbrev pub ◌⊖◌ : F → F → F
  ◌⊖◌ = f.sub

  abbrev pub ◌⊗◌ : F → F → F
  ◌⊗◌ = f.mul

  abbrev pub ◌⊘◌ : F → F → F
  ◌⊘◌ = f.div

  -- the tests `<=` and `<`
  abbrev pub ◌≼◌ : F → F → Bool
  ◌≼◌ = f.le

  abbrev pub ◌≺◌ : F → F → Bool
  ◌≺◌ = f.lt

  abbrev pub nought : F
  nought = f.zero

  -- Python's `max(a, b)` and `min(a, b)` keep `a` unless `b` is beyond it.
  unfoldable pub max : F → F → F
  max a b = if a ≺ b then b else a

  unfoldable pub min : F → F → F
  min a b = if b ≺ a then b else a

  -- `-x` and `abs(x)`
  abbrev pub neg : F → F
  neg x = nought ⊖ x

  unfoldable pub abs : F → F
  abs x = if x ≺ nought then neg x else x

  -- `not x`: a number is false when it is zero, and NaN is true.
  unfoldable pub is_zero : F → Bool
  is_zero x = x ≼ nought && nought ≼ x

  -- `sum(values)`, from the left
  unfoldable pub sum_from : F → List F → F
  sum_from acc [] = acc
  sum_from acc (x ∷ xs) = sum_from (acc ⊕ x) xs

-- What IEEE 754 doubles, and a rounding down to a step, do.
pub record IsFloat (F : Type 0) ⦃f : Float F⦄ : Type 0 where
  pub le_trans : (a b c : F) → (a ≼ b) ≡ true → (b ≼ c) ≡ true → (a ≼ c) ≡ true
  pub refl_of_le : (a b : F) → (a ≼ b) ≡ true → ((a ≼ a) ≡ true) × ((b ≼ b) ≡ true)
  pub lt-eq-not-le : (a b : F) → (a ≼ a) ≡ true → (b ≼ b) ≡ true → (a ≺ b) ≡ not (b ≼ a)
  pub lt_irrefl : (a : F) → (a ≺ a) ≡ false
  pub lt-le : (a b : F) → (a ≺ b) ≡ true → (a ≼ b) ≡ true
  pub lt_asymm : (a b : F) → (a ≺ b) ≡ true → (b ≺ a) ≡ false
  pub zero_refl : (f.zero ≼ f.zero) ≡ true
  -- what is not less than `b` leaves no negative rest
  pub sub_nonneg : (a b : F) → (a ≺ b) ≡ false → (a ⊖ b ≺ f.zero) ≡ false
  pub floor_step-le :
      (a s : F) → (a ≼ a) ≡ true → (f.zero ≺ s) ≡ true → (f.floor_step a s ≼ a) ≡ true
