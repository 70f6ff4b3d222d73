-- ===== src/Examples/Decisions.antt =====
-- A decision without positions, and one of an account that owes more than it has.
use ibkrquant.Prelude.{
  ◌≡◌, ◌↔◌, refl, Bool, true, false, List, [], ◌∷◌, Option, none, some, Text, codes, Dict, lookup,
}
use ibkrquant.Number.Fixed.{Fixed, fixed_float, dollars}
use ibkrquant.Mapper.{PositionTarget, StrategyDecision, Values, MapperKit, Mapped}
use ibkrquant.Mapper.Described.{map_strategy_decision}
use ibkrquant.Mapper.Gates.{with_inputs}
use ibkrquant.Mapper.Held.{map_strategy_decision-held}
use ibkrquant.Mapper.Blocked.{is_held, map_strategy_decision-none}

data Value : Type 0 where
  flag : Bool → Value
  number : Fixed → Value
  text : Text → Value
  texts : List Text → Value
  mapping : Value

abbrev is_true : Value → Bool
is_true (flag b) = b
is_true _ = true

abbrev text_of : Value → Text
text_of (text t) = t
text_of _ = codes "value"

abbrev float_of : Value → Option Fixed
float_of (number x) = some x
float_of _ = none

abbrev elements_of : Value → List Text
elements_of (texts ts) = ts
elements_of _ = []

abbrev values : Values Fixed Value
values = record {
  is_none = λ v. false;
  truthy = is_true;
  text = text_of;
  float = float_of;
  int = some;
  as_mapping = λ v. none;
  elements = elements_of;
  of_bool = flag;
  of_float = number;
  of_text = text;
  of_texts = texts;
  of_mapping = λ d. mapping;
}

abbrev kit : MapperKit Fixed Value
kit = record {
  profile = some;
  equity_for_targets = λ market cash only. (dollars 0, false);
  translate = λ d equity. some d;
  allocation_payload = λ d profile order. some [];
}

abbrev decision : StrategyDecision Fixed Value
decision = record {
  positions =
      record { symbol = codes "VOO"; target_weight = some (dollars 1); role = codes "risk" } ∷ [];
  risk_flags = codes "hard_defense" ∷ [];
  diagnostics = (codes "signal_display", text (codes " up ")) ∷ [];
}

abbrev equity : Fixed → Dict Value
equity x = (codes "portfolio_total_equity", number x) ∷ []

abbrev target_weights_of : Option (Mapped Fixed Value) → Option (Option (Dict Fixed))
target_weights_of none = none
target_weights_of (some m) = some m.target_weights

-- The account has equity: the decision's weight is the target.
run_weights :
    target_weights_of (map_strategy_decision values kit decision (codes "p") (equity (dollars 10)))
    ≡ some (some ((codes "VOO", dollars 1) ∷ []))
unfolding map_strategy_decision ibkrquant.Mapper.Gates.gate_of ibkrquant.Mapper.Gates.with_inputs
    lookup ibkrquant.Prelude.text_eq ibkrquant.Mapper.Gates.equity_gate
    ibkrquant.Mapper.Gates.position_gate ibkrquant.Prelude.mem_text ibkrquant.Mapper.Gates.raw_cash
    ibkrquant.Mapper.Gates.weighed ibkrquant.Mapper.weights_from ibkrquant.Prelude.insert
run_weights = refl

run_held :
    target_weights_of (map_strategy_decision values kit decision (codes "p") (equity (dollars 0)))
    ≡ some none
unfolding map_strategy_decision ibkrquant.Mapper.Gates.gate_of ibkrquant.Mapper.Gates.with_inputs
    lookup ibkrquant.Prelude.text_eq ibkrquant.Mapper.Gates.equity_gate
    ibkrquant.Mapper.Gates.position_gate ibkrquant.Prelude.mem_text ibkrquant.Mapper.Gates.raw_cash
    ibkrquant.Mapper.Gates.weighed ibkrquant.Mapper.weights_from ibkrquant.Prelude.insert
run_held = refl

is_mapped :
    (o : Option (Mapped Fixed Value)) (w : Option (Dict Fixed))
    → target_weights_of o ≡ some w
    → (m : Mapped Fixed Value) × (o ≡ some m)
is_mapped none w h = cc
is_mapped (some m) w h = (m, refl)

map_strategy_decision-none_example :
    (m : Mapped Fixed Value) × ((m.target_weights ≡ none)
      ↔ (is_held values kit decision (equity (dollars 0)) ≡ true))
map_strategy_decision-none_example =
    let (m, e) =
      is_mapped (map_strategy_decision values kit decision (codes "p") (equity (dollars 0))) none
        run_held in
    (m, map_strategy_decision-none values kit decision (codes "p") (equity (dollars 0)) m e)

no_equity : is_held values kit decision (equity (dollars 0)) ≡ true
unfolding ibkrquant.Mapper.Gates.gate_of ibkrquant.Mapper.Gates.with_inputs lookup
    ibkrquant.Prelude.text_eq ibkrquant.Mapper.Gates.equity_gate
    ibkrquant.Mapper.Gates.position_gate ibkrquant.Prelude.mem_text ibkrquant.Mapper.Gates.raw_cash
    ibkrquant.Mapper.Gates.weighed ibkrquant.Mapper.weights_from ibkrquant.Prelude.insert
no_equity = refl

no_inputs :
    with_inputs values kit (equity (dollars 0)) decision.diagnostics ≡ some decision.diagnostics
unfolding ibkrquant.Mapper.Gates.gate_of ibkrquant.Mapper.Gates.with_inputs lookup
    ibkrquant.Prelude.text_eq ibkrquant.Mapper.Gates.equity_gate
    ibkrquant.Mapper.Gates.position_gate ibkrquant.Prelude.mem_text ibkrquant.Mapper.Gates.raw_cash
    ibkrquant.Mapper.Gates.weighed ibkrquant.Mapper.weights_from ibkrquant.Prelude.insert
no_inputs = refl

map_strategy_decision-held_example :
    (m : Mapped Fixed Value) × (map_strategy_decision values kit decision
        (codes "p")
        (equity (dollars 0))
      ≡ some m)
    × (m.target_weights ≡ none)
map_strategy_decision-held_example =
    map_strategy_decision-held values kit decision (codes "p") (codes "p") (equity (dollars 0))
      decision.diagnostics no_equity refl no_inputs
