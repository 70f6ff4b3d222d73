-- ===== src/Mapper/Held.antt =====
-- decision_mapper.py: a decision that is held is mapped, whatever the third-party packages do.
use ibkrquant.Prelude.{
  ◌≡◌, refl, ap, ◌∙◌, inl, inr, Bool, true, false, ◌||◌, Option, none, some, some-injective,
  is_some, Text, codes, mem_text, is_empty, Dict, Bool-cases, if◌then◌else◌, arith,
}
use mathlib.Core.Path.{ap₂}
use ibkrquant.Number.{Float}
use ibkrquant.Recovery.Ledger.{bind}
use ibkrquant.Mapper.{StrategyDecision, Values, MapperKit, Gate, Mapped, present}
use ibkrquant.Mapper.Gates.{
  market_values, raw_cash, cash_only, with_inputs, position_gate, equity_gate, equity_tested,
  with_equity, gate_of, weighed,
}
use ibkrquant.Mapper.Described.{map_strategy_decision}
use ibkrquant.Mapper.Blocked.{
  tested, float_of, lacks_equity, is_held, position_gate-no_execute, gate_of-no_execute, or_assoc,
}

present-of : {A : Type 0} (o : Option A) → is_some o ≡ true → (a : A) × (o ≡ some a)
present-of none h = cc
present-of (some a) h = (a, refl)

taken_then : {A : Type 0} (b : Bool) (x y : A) → b ≡ true → (if b then x else y) ≡ x
taken_then true x y h = refl
taken_then false x y h = cc

taken_else : {A : Type 0} (b : Bool) (x y : A) → b ≡ false → (if b then x else y) ≡ y
taken_else true x y h = cc
taken_else false x y h = refl

bind-at : {A B : Type 0} (o : Option A) (g : A → Option B) (a : A) → o ≡ some a → bind o g ≡ g a
bind-at none g a h = cc
bind-at (some b) g a h = ap g (some-injective b a h)

module _ {F V : Type 0} ⦃f : Float F⦄ (values : Values F V) (kit : MapperKit F V) where
  tested-returns :
      (metadata : Dict V) (total cash : Option F) (k : F → F → Gate V)
      → tested values kit metadata total cash ≡ true
      → is_some (bind total λ t. bind cash λ c. some (k t c)) ≡ true
  tested-returns metadata none cash k h = cc
  tested-returns metadata (some t) none k h = cc
  tested-returns metadata (some t) (some c) k h = refl

  with_equity-returns :
      (o : Option V) (g : Gate V)
      → (g.no_execute
          || tested values kit g.metadata (float_of values kit o) (raw_cash values kit g.metadata))
        ≡ true
      → is_some (with_equity values kit o g) ≡ true
  with_equity-returns none g h = refl
  with_equity-returns (some v) g h = elim (Bool-cases g.no_execute) [
    | inl held ↦ ground (arith, held)
    | inr free ↦
        let no_equity : tested values kit g.metadata (values.float v)
              (raw_cash values kit g.metadata)
            ≡ true =
          ground (arith, free, h) in
        let left : F → F → Gate V = λ t c.
          equity_tested values kit t
            (kit.equity_for_targets (market_values values kit g.metadata) c
              (cash_only values kit g.metadata))
            g in
        ap is_some (taken_else g.no_execute (some g) _ free)
        ∙ tested-returns g.metadata (values.float v) (raw_cash values kit g.metadata) left no_equity
  ]

  gate_of-returns :
      (d : StrategyDecision F V) (metadata diagnostics : Dict V)
      → is_held values kit d metadata ≡ true
      → with_inputs values kit metadata d.diagnostics ≡ some diagnostics
      → is_some (gate_of values kit d metadata) ≡ true
  unfolding gate_of equity_gate
  gate_of-returns d metadata diagnostics held inputs =
      let start : Gate V = record {
        no_execute = mem_text (codes "no_execute") d.risk_flags;
        risk_flags = d.risk_flags;
        diagnostics = diagnostics;
        metadata = metadata;
      } in
      let (positions, same) = position_gate-no_execute values kit d start in
      let p = position_gate values kit d start in
      ap is_some (bind-at (with_inputs values kit metadata d.diagnostics) _ diagnostics inputs)
      ∙ with_equity-returns (present values kit (codes "portfolio_total_equity") p.metadata) p (
          ap₂ (λ b m. b || lacks_equity values kit m) positions same
          ∙ or_assoc values kit (mem_text (codes "no_execute") d.risk_flags) (is_empty d.positions)
              (lacks_equity values kit metadata)
          ∙ held)

  weighed-held :
      (d : StrategyDecision F V) (profile : Text) (g : Gate V)
      → g.no_execute ≡ true
      → weighed values kit d profile g ≡ some (d, none, none)
  unfolding weighed
  weighed-held d profile g h = taken_then g.no_execute (some (d, none, none)) _ h

  -- Where the strategy is known and the risk inputs of the platform are numbers, a decision that is held is
  -- mapped, without target weights: no error of the translation or of the allocation can keep it from
  -- that.
  pub map_strategy_decision-held :
      (d : StrategyDecision F V) (strategy_profile profile : Text) (metadata diagnostics : Dict V)
      → is_held values kit d metadata ≡ true
      → kit.profile strategy_profile ≡ some profile
      → with_inputs values kit metadata d.diagnostics ≡ some diagnostics
      → (m : Mapped F V) × (map_strategy_decision values kit d strategy_profile metadata ≡ some m)
        × (m.target_weights ≡ none)
  unfolding map_strategy_decision
  map_strategy_decision-held d strategy_profile profile metadata diagnostics held known inputs =
      let (g, same) = present-of _ (gate_of-returns d metadata diagnostics held inputs) in
      let stopped = gate_of-no_execute values kit d metadata g same ∙ held in
      (
        _,
        bind-at (kit.profile strategy_profile) _ profile known
            ∙ bind-at (gate_of values kit d metadata) _ g same
            ∙ bind-at (weighed values kit d profile g) _ (d, none, none)
                (weighed-held d profile g stopped),
        refl,
      )
