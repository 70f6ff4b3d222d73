-- ===== src/Mapper/Blocked.antt =====
-- decision_mapper.py: when a decision has no target weights.
use ibkrquant.Prelude.{
  ◌≡◌, ◌↔◌, refl, sym, ap, ◌∙◌, inl, inr, Bool, true, false, ◌&&◌, ◌||◌, not, [], Option, none,
  some, some-injective, Text, codes, mem_text, is_empty, Dict, lookup, Bool-cases, if◌then◌else◌,
  arith,
}
use mathlib.Core.Path.{ap₂}
use ibkrquant.Number.{Float, ◌≼◌}
use ibkrquant.Recovery.Ledger.Transition.{bind-some}
use ibkrquant.Mapper.{StrategyDecision, Values, MapperKit, Gate, Mapped, weights_from, present}
use ibkrquant.Mapper.Gates.{
  market_values, raw_cash, cash_only, with_inputs, position_gate, equity_gate, equity_tested,
  with_equity, gate_of, payload_of, weighed,
}
use ibkrquant.Mapper.Described.{map_strategy_decision}

then-eq : {A : Type 0} (b : Bool) (x y z : A) → b ≡ true → (if b then x else y) ≡ z → x ≡ z
then-eq true x y z e h = h
then-eq false x y z e h = cc

else-eq : {A : Type 0} (b : Bool) (x y z : A) → b ≡ false → (if b then x else y) ≡ z → y ≡ z
else-eq true x y z e h = cc
else-eq false x y z e h = h

module _ {F V : Type 0} ⦃f : Float F⦄ (values : Values F V) (kit : MapperKit F V) where
  -- the equity of an account is not positive, and it is not one that reduces its debt
  abbrev pub tested : Dict V → Option F → Option F → Bool
  tested metadata none c = false
  tested metadata (some total) none = false
  tested metadata (some total) (some cash) =
      total ≼ f.zero
      && not (
          (kit.equity_for_targets (market_values values kit metadata) cash
            (cash_only values kit metadata)).1)

  abbrev pub float_of : Option V → Option F
  float_of none = none
  float_of (some v) = values.float v

  abbrev pub lacks_equity : Dict V → Bool
  lacks_equity metadata =
      tested metadata (float_of (present values kit (codes "portfolio_total_equity") metadata))
        (raw_cash values kit metadata)

  -- the decision says so, has no position, or the account has no equity
  abbrev pub is_held : StrategyDecision F V → Dict V → Bool
  is_held d metadata =
      mem_text (codes "no_execute") d.risk_flags || is_empty d.positions || lacks_equity metadata

  if-no_execute :
      (a b : Bool) (x y z : Gate V)
      → x.no_execute ≡ z.no_execute
      → y.no_execute ≡ true
      → (if a then (if b then x else y) else z).no_execute ≡ (z.no_execute || (a && not b))
  if-no_execute true true x y z e h = ground arith
  if-no_execute true false x y z e h = ground arith
  if-no_execute false b x y z e h = ground arith

  equity_tested-no_execute :
      (total : F) (r : F × Bool) (g : Gate V)
      → (equity_tested values kit total r g).no_execute
        ≡ (g.no_execute || (total ≼ f.zero && not (r.1)))
  equity_tested-no_execute total (e, deleverage) g =
      if-no_execute (total ≼ f.zero) deleverage _ _ g refl refl

  or_true : (a b : Bool) → a ≡ true → a ≡ (a || b)
  or_true true b h = refl
  or_true false b h = cc

  pub or_assoc : (a b c : Bool) → ((a || b) || c) ≡ (a || b || c)
  or_assoc true b c = refl
  or_assoc false b c = refl

  or_false : (a : Bool) → a ≡ (a || false)
  or_false true = refl
  or_false false = refl

  -- what the test of the equity leaves of a gate
  with_equity-no_execute :
      (o : Option V) (g g' : Gate V)
      → with_equity values kit o g ≡ some g'
      → g'.no_execute
        ≡ (g.no_execute || tested g.metadata (float_of o) (raw_cash values kit g.metadata))
  with_equity-no_execute none g g' h =
      ap (λ x. x.no_execute) (sym (some-injective g g' h)) ∙ or_false g.no_execute
  with_equity-no_execute (some v) g g' h = elim (Bool-cases g.no_execute) [
    | inl held ↦
        let same : g ≡ g' =
          some-injective g g' (then-eq g.no_execute (some g) _ (some g') held h) in
        ap (λ x. x.no_execute) (sym same) ∙ or_true g.no_execute _ held
    | inr free ↦
        let h0 = else-eq g.no_execute (some g) _ (some g') free h in
        let (total, read, h1) = bind-some (values.float v) _ g' h0 in
        let (cash, counted, h2) = bind-some (raw_cash values kit g.metadata) _ g' h1 in
        let r =
          kit.equity_for_targets (market_values values kit g.metadata) cash
            (cash_only values kit g.metadata) in
        ap (λ x. x.no_execute) (sym (some-injective (equity_tested values kit total r g) g' h2))
        ∙ equity_tested-no_execute total r g
        ∙ ap₂ (λ t c. g.no_execute || tested g.metadata t c) (sym read) (sym counted)
  ]

  pub position_gate-no_execute :
      (d : StrategyDecision F V) (g : Gate V)
      → ((position_gate values kit d g).no_execute ≡ (g.no_execute || is_empty d.positions))
        × ((position_gate values kit d g).metadata ≡ g.metadata)
  unfolding position_gate
  position_gate-no_execute d g = go g.no_execute (is_empty d.positions) _ g refl refl refl
    where
      go :
          (a b : Bool) (x y : Gate V)
          → y.no_execute ≡ a
          → x.no_execute ≡ true
          → x.metadata ≡ y.metadata
          → ((if not a && b then x else y).no_execute ≡ (a || b))
            × ((if not a && b then x else y).metadata ≡ y.metadata)
      go true b x y e h m = (e, refl)
      go false true x y e h m = (h, m)
      go false false x y e h m = (e, refl)

  pub gate_of-no_execute :
      (d : StrategyDecision F V) (metadata : Dict V) (g : Gate V)
      → gate_of values kit d metadata ≡ some g
      → g.no_execute ≡ is_held d metadata
  unfolding gate_of equity_gate
  gate_of-no_execute d metadata g h =
      let (diagnostics, _, h1) = bind-some (with_inputs values kit metadata d.diagnostics) _ g h in
      let start : Gate V = record {
        no_execute = mem_text (codes "no_execute") d.risk_flags;
        risk_flags = d.risk_flags;
        diagnostics = diagnostics;
        metadata = metadata;
      } in
      let (positions, same) = position_gate-no_execute d start in
      let p = position_gate values kit d start in
      with_equity-no_execute (present values kit (codes "portfolio_total_equity") p.metadata) p g h1
      ∙ ap₂ (λ b m. b || lacks_equity m) positions same
      ∙ or_assoc (mem_text (codes "no_execute") d.risk_flags) (is_empty d.positions)
          (lacks_equity metadata)

  weighed-none :
      (d : StrategyDecision F V) (profile : Text) (g : Gate V)
      (w : StrategyDecision F V × Option (Dict F) × Option (Dict V))
      → weighed values kit d profile g ≡ some w
      → (w.1 ≡ none) ↔ (g.no_execute ≡ true)
  unfolding weighed
  weighed-none d profile g w h = elim (Bool-cases g.no_execute) [
    | inl held ↦
        let same = some-injective _ w (then-eq g.no_execute _ _ (some w) held h) in
        (λ e. held, λ e. ap (λ x. x.1) (sym same))
    | inr free ↦
        let h0 = else-eq g.no_execute _ _ (some w) free h in
        let (n, _, h1) =
          bind-some (kit.translate d (lookup (codes "portfolio_total_equity") g.metadata)) _ w h0 in
        let (ws, _, h2) = bind-some (weights_from [] n.positions) _ w h1 in
        let (p, _, h3) = bind-some (payload_of values kit n profile) _ w h2 in
        let same = ap (λ x. x.1) (some-injective (n, some ws, p) w h3) in (λ e. cc, λ e. cc)
  ]

  -- A decision that is mapped has no target weights exactly when it says that nothing is executed, has no
  -- position, or the account's total equity is known, not positive, and not to be raised by reducing its
  -- debt.
  pub map_strategy_decision-none :
      (d : StrategyDecision F V) (profile : Text) (metadata : Dict V) (m : Mapped F V)
      → map_strategy_decision values kit d profile metadata ≡ some m
      → (m.target_weights ≡ none) ↔ (is_held d metadata ≡ true)
  unfolding map_strategy_decision
  map_strategy_decision-none d profile metadata m h =
      let (canonical, _, h1) = bind-some (kit.profile profile) _ m h in
      let (g, made, h2) = bind-some (gate_of values kit d metadata) _ m h1 in
      let (w, weighted, h3) = bind-some (weighed values kit d canonical g) _ m h2 in
      let held = gate_of-no_execute d metadata g made in
      let same = ap (λ x. x.target_weights) (some-injective _ m h3) in
      let (to, from) = weighed-none d canonical g w weighted in
      (λ e. sym held ∙ to (same ∙ e), λ e. sym same ∙ from (held ∙ e))
