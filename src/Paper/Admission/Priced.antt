-- ===== src/Paper/Admission/Priced.antt =====
-- application/paper_execution_admission.py: the numbers behind the facts of an exposure.
use ibkrquant.Prelude.{
  ◌≡◌, refl, sym, ◌∙◌, ap, Bool, true, false, not, ◌||◌, List, [], ◌∷◌, ◌++◌, Option, none, some,
  some-injective, Text, All, lookup, get_or, if◌then◌else◌, arith,
}
use mathlib.Core.Path.{subst}
use ibkrquant.Number.{Float, ◌≼◌, ◌≺◌, nought}
use ibkrquant.Paper.Commands.{mismatch}
use ibkrquant.Paper.Admission.{
  AdmissionArgs, AdmissionKit, Fact, append_finding, normalized_items, flatten, fact,
  finite_nonnegative, fact_of, with_fact, facts_from,
}

-- A number that is read is finite and not negative.
pub record IsNonnegative {F : Type 0} ⦃f : Float F⦄ (kit : AdmissionKit F) (x : F) : Type 0 where
  pub finite : kit.is_finite x ≡ true
  pub nonneg : (x ≺ nought) ≡ false

-- A symbol has a position, a target, where nought stands for none, and a positive price.
pub record IsPriced {F : Type 0} ⦃f : Float F⦄ (kit : AdmissionKit F) (a : AdmissionArgs F)
    (symbol : Text) : Type 0 where
  pub quantity : F
  pub held : lookup symbol (normalized_items [] a.positions) ≡ some (some quantity)
  pub is_quantity : IsNonnegative kit quantity
  pub target : F
  pub aimed :
      get_or (lookup symbol (normalized_items [] a.target_market_values)) (some nought)
      ≡ some target
  pub is_target : IsNonnegative kit target
  pub price : F
  pub quoted : lookup symbol (normalized_items [] a.prices) ≡ some (some price)
  pub is_price : IsNonnegative kit price
  pub positive : (price ≼ nought) ≡ false

flatten-some : {F : Type 0} (o : Option (Option F)) (x : F) → flatten o ≡ some x → o ≡ some (some x)
flatten-some none x h = cc
flatten-some (some v) x h = ap some h

append_finding-nil : {B : Type 0} (fs : List Text) (g : Text) → append_finding fs g ≡ [] → B
unfolding append_finding ibkrquant.Prelude.mem_text
append_finding-nil [] g h = cc
append_finding-nil (x ∷ fs) g h = ground arith

module _ {F : Type 0} ⦃f : Float F⦄ (kit : AdmissionKit F) (a : AdmissionArgs F) where
  read_IsNonnegative :
      (o : Option F) (x : F)
      → finite_nonnegative kit a o ≡ some x
      → (o ≡ some x) × IsNonnegative kit x
  unfolding finite_nonnegative
  read_IsNonnegative none x h = cc
  read_IsNonnegative (some y) x h =
      let parts : (kit.is_finite y ≡ true) × ((y ≺ nought) ≡ false) × (y ≡ x) = ground arith in
      (
        ap some parts.2,
        subst (IsNonnegative kit) parts.2 (record { finite = parts.0; nonneg = parts.1 }),
      )

  made :
      (s : Text) (q t p : Option F) (x : Fact F)
      → fact s q t p ≡ some x
      → (quantity : F) × (target : F) × (price : F) × (q ≡ some quantity)
        × (t ≡ some target)
        × (p ≡ some price)
        × ((price ≼ nought) ≡ false)
  made s (some q) (some t) (some p) x h = (q, t, p, refl, refl, refl, ground arith)
  made s none t p x h = cc
  made s (some q) none p x h = cc
  made s (some q) (some t) none x h = cc

  fact_of-IsPriced : (s : Text) (x : Fact F) → fact_of kit a s ≡ some x → IsPriced kit a s
  unfolding fact_of
  fact_of-IsPriced s x h =
      let (quantity, target, price, q, t, p, positive) = made s _ _ _ x h in
      let (held, is_quantity) = read_IsNonnegative _ quantity q in
      let (aimed, is_target) = read_IsNonnegative _ target t in
      let (quoted, is_price) = read_IsNonnegative _ price p in
      record {
        quantity = quantity;
        held = flatten-some _ quantity held;
        is_quantity = is_quantity;
        target = target;
        aimed = aimed;
        is_target = is_target;
        price = price;
        quoted = flatten-some _ price quoted;
        is_price = is_price;
        positive = positive;
      }

  with_fact-IsPriced :
      (s : Text) (o : Option (Fact F)) (facts : List (Fact F)) (findings : List Text)
      → fact_of kit a s ≡ o
      → (with_fact kit a o (facts, findings)).1 ≡ []
      → (findings ≡ []) × IsPriced kit a s
  with_fact-IsPriced s none facts findings e h = append_finding-nil findings mismatch h
  with_fact-IsPriced s (some x) facts findings e h = (h, fact_of-IsPriced s x e)

  pub facts_from-IsPriced :
      (ss : List Text) (facts : List (Fact F)) (findings : List Text)
      → (facts_from kit a (facts, findings) ss).1 ≡ []
      → (findings ≡ []) × All (IsPriced kit a) ss
  unfolding facts_from
  facts_from-IsPriced [] facts findings h = (h, tt)
  facts_from-IsPriced (s ∷ ss) facts findings h =
      let (nil, later) =
        facts_from-IsPriced ss (with_fact kit a (fact_of kit a s) (facts, findings)).0
          (with_fact kit a (fact_of kit a s) (facts, findings)).1 h in
      let (first, here) = with_fact-IsPriced s (fact_of kit a s) facts findings refl nil in
      (first, (here, later))
