-- ===== src/Paper/Commands/Checked.antt =====
-- application/paper_execution_command_consumer.py: what the checks of a command leave.
use ibkrquant.Prelude.{
  same_set, ℕ, suc, ◌≡◌, refl, ap, Bool, true, false, not, ◌&&◌, List, [], ◌∷◌, ◌++◌, Option, none,
  some, Text, normalize, mem_text, is_empty, any, keys, values, All, all→All, Dict, if◌then◌else◌,
  arith,
}
use mathlib.Core.Path.{subst}
use ibkrquant.Number.{Float, ◌⊕◌, ◌⊖◌, ◌⊗◌, ◌≼◌, ◌≺◌, nought, neg, abs, sum_from}
use ibkrquant.Paper.Commands.{
  PaperPosition, PaperPortfolio, Feed, Tally, mismatch, note, failed, no_tally, positive_price,
  tolerance, notional_tolerance, priced, measured, finite, equity_off, tally_one, tally,
  positions_checked, is_valid_target,
}

snoc-nil : {A B : Type 0} (xs : List A) (x : A) → xs ++ x ∷ [] ≡ [] → B
snoc-nil [] x h = cc
snoc-nil (y ∷ xs) x h = cc

note-nil : (g : Text) (b : Bool) (fs : List Text) → note g b fs ≡ [] → (b ≡ false) × (fs ≡ [])
note-nil g true fs h = snoc-nil fs g h
note-nil g false fs h = (refl, h)

-- The two lists have the same symbols.
abbrev pub SameSymbols : List Text → List Text → Type 0
SameSymbols xs ys = All (λ s. mem_text s ys ≡ true) xs × All (λ s. mem_text s xs ≡ true) ys

same_set-SameSymbols : (xs ys : List Text) → same_set xs ys ≡ true → SameSymbols xs ys
same_set-SameSymbols xs ys h =
    (all→All (λ s. mem_text s ys) xs (ground arith), all→All (λ s. mem_text s xs) ys (ground arith))

-- A position of one of the symbols, with finite numbers and a finite positive price at this call of the quotes;
-- neither its quantity nor its value is negative beyond the tolerance, and its value is its quantity at that
-- price, within the tolerance.
pub record IsCounted {F : Type 0} ⦃f : Float F⦄ (feed : Feed F) (symbols : List Text) (n : ℕ)
    (p : PaperPosition F) : Type 0 where
  pub is_known : mem_text (normalize p.symbol) symbols ≡ true
  pub quantity : F
  pub has_quantity : (p.quantity ≡ some quantity) × (feed.is_finite quantity ≡ true)
  pub recorded : F
  pub has_value : (p.market_value ≡ some recorded) × (feed.is_finite recorded ≡ true)
  pub price : F
  pub has_price : (feed.quote n (normalize p.symbol) ≡ some price) × (feed.is_finite price ≡ true)
  pub positive : (price ≼ nought) ≡ false
  pub long_quantity : (quantity ≺ neg notional_tolerance) ≡ false
  pub long_value : (recorded ≺ neg notional_tolerance) ≡ false
  pub agrees : (tolerance (quantity ⊗ price) ≺ abs (recorded ⊖ quantity ⊗ price)) ≡ false

-- Each position is counted, with one call of the quotes after another.
abbrev pub AllCounted :
    {F : Type 0} → ⦃f : Float F⦄ → Feed F → List Text → ℕ → List (PaperPosition F) → Type 0
AllCounted feed symbols n [] = Unit
AllCounted feed symbols n (p ∷ ps) = IsCounted feed symbols n p × AllCounted feed symbols (suc n) ps

-- The equity is the cash with the values of the positions, within the tolerance.
pub record IsBalanced {F : Type 0} ⦃f : Float F⦄ (feed : Feed F) (p : PaperPortfolio F)
    (current_values : Dict F) : Type 0 where
  pub cash : F
  pub has_cash : (p.market_currency_cash ≡ some cash) × (feed.is_finite cash ≡ true)
  pub equity : F
  pub has_equity : (p.total_equity ≡ some equity) × (feed.is_finite equity ≡ true)
  pub agrees :
      (tolerance equity ≺ abs (cash ⊕ sum_from nought (values current_values) ⊖ equity)) ≡ false

-- The targets are those of the strategy's symbols, there is one at least, and none is negative.
pub record IsTarget {F : Type 0} ⦃f : Float F⦄ (symbols expected : List Text) (targets : Dict F)
    : Type 0 where
  pub has_symbol : is_empty symbols ≡ false
  pub of_strategy : SameSymbols symbols expected
  pub of_targets : SameSymbols (keys targets) symbols
  pub nonneg : All (λ v. (v ≺ nought) ≡ false) (values targets)

module _ {F : Type 0} ⦃f : Float F⦄ where
  any-All : (vs : List F) → any (λ v. v ≺ nought) vs ≡ false → All (λ v. (v ≺ nought) ≡ false) vs
  any-All [] h = tt
  any-All (v ∷ vs) h =
      let here : (v ≺ nought) ≡ false = ground arith in (here, any-All vs (ground arith))

  pub valid-IsTarget :
      (symbols expected : List Text) (targets : Dict F)
      → is_valid_target symbols expected targets ≡ true
      → IsTarget symbols expected targets
  unfolding is_valid_target
  valid-IsTarget symbols expected targets h =
      let parts : (is_empty symbols ≡ false)
          × (same_set symbols expected ≡ true)
          × (same_set (keys targets) symbols ≡ true)
          × (any (λ v. v ≺ nought) (values targets) ≡ false) =
        split _ _ _ _ h in
      record {
        has_symbol = parts.0;
        of_strategy = same_set-SameSymbols symbols expected parts.1;
        of_targets = same_set-SameSymbols (keys targets) symbols parts.2;
        nonneg = any-All (values targets) parts.3;
      }
    where
      split :
          (a b c d : Bool)
          → (not a && b && c && not d) ≡ true
          → (a ≡ false) × (b ≡ true) × (c ≡ true) × (d ≡ false)
      split false true true false h = (refl, refl, refl, refl)
      split true b c d h = cc
      split false false c d h = cc
      split false true false d h = cc
      split false true true true h = cc

module _ {F : Type 0} ⦃f : Float F⦄ (feed : Feed F) where
  finite-some :
      (o : Option F) (x : F) → finite feed o ≡ some x → (o ≡ some x) × (feed.is_finite x ≡ true)
  finite-some none x h = cc
  finite-some (some y) x h =
      let parts : (feed.is_finite y ≡ true) × (y ≡ x) = ground arith in
      (ap some parts.1, subst (λ z. feed.is_finite z ≡ true) parts.1 parts.0)

  positive_price-some :
      (o : Option F) (x : F) → positive_price o ≡ some x → (o ≡ some x) × ((x ≼ nought) ≡ false)
  positive_price-some none x h = cc
  positive_price-some (some y) x h =
      let parts : ((y ≼ nought) ≡ false) × (y ≡ x) = ground arith in
      (ap some parts.1, subst (λ z. (z ≼ nought) ≡ false) parts.1 parts.0)

  equity-IsBalanced :
      (p : PaperPortfolio F) (cash equity : Option F) (d : Dict F)
      → finite feed p.market_currency_cash ≡ cash
      → finite feed p.total_equity ≡ equity
      → equity_off cash equity d ≡ false
      → IsBalanced feed p d
  equity-IsBalanced p (some cash) (some equity) d hc he h = record {
    cash = cash;
    has_cash = finite-some p.market_currency_cash cash hc;
    equity = equity;
    has_equity = finite-some p.total_equity equity he;
    agrees = h;
  }
  equity-IsBalanced p none equity d hc he h = cc
  equity-IsBalanced p (some cash) none d hc he h = cc

  module _ (symbols : List Text) (p : PaperPosition F)
      (known : mem_text (normalize p.symbol) symbols ≡ true) (t : Tally F) where
    priced-IsCounted :
        (quantity recorded : F) (price : Option F)
        → finite feed p.quantity ≡ some quantity
        → finite feed p.market_value ≡ some recorded
        → positive_price (finite feed (feed.quote t.calls (normalize p.symbol))) ≡ price
        → (priced
            (normalize p.symbol)
            quantity
            recorded
            price
            (record t { calls = suc t.calls })).findings
          ≡ []
        → (t.findings ≡ [])
          × IsCounted feed symbols t.calls p
          × ((priced
                (normalize p.symbol)
                quantity
                recorded
                price
                (record t { calls = suc t.calls })).calls
              ≡ suc t.calls)
    priced-IsCounted quantity recorded none hq hr hp h = snoc-nil t.findings mismatch h
    priced-IsCounted quantity recorded (some price) hq hr hp h =
        let (agrees, h1) = note-nil mismatch _ _ h in
        let (long, h2) = note-nil mismatch _ t.findings h1 in
        let sides : ((quantity ≺ neg notional_tolerance) ≡ false)
            × ((recorded ≺ neg notional_tolerance) ≡ false) =
          ground (arith, long) in
        let (quoted, positive) = positive_price-some _ price hp in
        (
          h2,
          record {
            is_known = known;
            quantity = quantity;
            has_quantity = finite-some p.quantity quantity hq;
            recorded = recorded;
            has_value = finite-some p.market_value recorded hr;
            price = price;
            has_price = finite-some (feed.quote t.calls (normalize p.symbol)) price quoted;
            positive = positive;
            long_quantity = sides.0;
            long_value = sides.1;
            agrees = agrees;
          },
          refl,
        )

    measured-IsCounted :
        (quantity recorded : Option F)
        → finite feed p.quantity ≡ quantity
        → finite feed p.market_value ≡ recorded
        → (measured feed (normalize p.symbol) quantity recorded t).findings ≡ []
        → (t.findings ≡ [])
          × IsCounted feed symbols t.calls p
          × ((measured feed (normalize p.symbol) quantity recorded t).calls ≡ suc t.calls)
    measured-IsCounted (some quantity) (some recorded) hq hr h =
        priced-IsCounted quantity recorded _ hq hr refl h
    measured-IsCounted none recorded hq hr h = snoc-nil t.findings mismatch h
    measured-IsCounted (some quantity) none hq hr h = snoc-nil t.findings mismatch h

  turn-IsCounted :
      (symbols : List Text) (p : PaperPosition F) (t : Tally F) (b : Bool)
      → mem_text (normalize p.symbol) symbols ≡ b
      → (if b
          then measured feed
              (normalize p.symbol)
              (finite feed p.quantity)
              (finite feed p.market_value)
              t
          else failed t).findings
        ≡ []
      → (t.findings ≡ [])
        × IsCounted feed symbols t.calls p
        × ((if b
              then measured feed
                  (normalize p.symbol)
                  (finite feed p.quantity)
                  (finite feed p.market_value)
                  t
              else failed t).calls
            ≡ suc t.calls)
  turn-IsCounted symbols p t true known h = measured-IsCounted symbols p known t _ _ refl refl h
  turn-IsCounted symbols p t false known h = snoc-nil t.findings mismatch h

  tally-AllCounted :
      (symbols : List Text) (ps : List (PaperPosition F)) (t : Tally F)
      → (tally feed symbols ps t).findings ≡ []
      → (t.findings ≡ []) × AllCounted feed symbols t.calls ps
  unfolding tally tally_one
  tally-AllCounted symbols [] t h = (h, tt)
  tally-AllCounted symbols (p ∷ ps) t h =
      let (nil, later) = tally-AllCounted symbols ps (tally_one feed symbols p t) h in
      let (first, here, calls) = turn-IsCounted symbols p t _ refl nil in
      (first, (here, subst (λ n. AllCounted feed symbols n ps) calls later))

  pub positions_checked-AllCounted :
      (p : PaperPortfolio F) (symbols : List Text)
      → (positions_checked feed p symbols).findings ≡ []
      → AllCounted feed symbols 0 p.positions
        × IsBalanced feed p (positions_checked feed p symbols).current_values
  unfolding positions_checked
  positions_checked-AllCounted p symbols h =
      let (balanced, h1) =
        note-nil mismatch _ (tally feed symbols p.positions no_tally).findings h in
      (
        (tally-AllCounted symbols p.positions no_tally h1).1,
        equity-IsBalanced p _ _ _ refl refl balanced,
      )
