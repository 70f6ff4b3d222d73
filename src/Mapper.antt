-- ===== src/Mapper.antt =====
-- decision_mapper.py: the decision of a strategy as the target weights and the metadata of a cycle.
pub mod Gates
pub mod Described
pub mod Blocked
pub mod Held
use ibkrquant.Prelude.{
  Bool, true, false, ◌&&◌, ◌||◌, not, List, [], ◌∷◌, ◌++◌, Option, none, some, Text, codes, strip,
  text_eq, mem_text, unique, is_blank_text, is_empty, is_some, map, any, get_or, Dict, lookup,
  insert, contains, if◌then◌else◌,
}
use ibkrquant.Number.{Float, ◌≼◌}
use ibkrquant.Recovery.Ledger.{bind}

-- `PositionTarget` and `StrategyDecision` as the module reads them.
pub record PositionTarget (F : Type 0) : Type 0 where
  pub symbol : Text
  pub target_weight : Option F
  pub role : Text

pub record StrategyDecision (F V : Type 0) : Type 0 where
  pub positions : List (PositionTarget F)
  pub risk_flags : List Text
  pub diagnostics : Dict V

-- Python's values: `value is None`, `bool(value)`, `str(value)`, `float(value)` and `int(value)`, where
-- `none` is an exception, a mapping if it is one, and its elements as texts.
pub record Values (F V : Type 0) : Type 0 where
  pub is_none : V → Bool
  pub truthy : V → Bool
  pub text : V → Text
  pub float : V → Option F
  pub int : V → Option V
  pub as_mapping : V → Option (Dict V)
  pub elements : V → List Text
  pub of_bool : Bool → V
  pub of_float : F → V
  pub of_text : Text → V
  pub of_texts : List Text → V
  pub of_mapping : Dict V → V

-- `resolve_strategy_definition(...).profile`, `resolve_strategy_equity_for_targets`,
-- `translate_decision_to_target_mode` and the allocation payload, of third-party packages; `none` is an
-- exception.
pub record MapperKit (F V : Type 0) : Type 0 where
  pub profile : Text → Option Text
  pub equity_for_targets : Dict V → F → Bool → F × Bool
  pub translate : StrategyDecision F V → Option V → Option (StrategyDecision F V)
  pub allocation_payload : StrategyDecision F V → Text → Text → Option (Dict V)

-- What the tests of `map_strategy_decision` leave.
pub record Gate (V : Type 0) : Type 0 where
  pub no_execute : Bool
  pub risk_flags : List Text
  pub diagnostics : Dict V
  pub metadata : Dict V

pub record Mapped (F V : Type 0) : Type 0 where
  pub target_weights : Option (Dict F)
  pub signal_description : Text
  pub is_emergency : Bool
  pub status_description : Text
  pub metadata : Dict V

-- `_resolve_allocation_order`, of the canonical profile
abbrev pub allocation_order : Text → Text
allocation_order profile =
    if text_eq profile (codes "soxl_soxx_trend_income")
    then codes "risk_income_safe"
    else codes "risk_safe_income"

-- `d.setdefault(key, value)`
abbrev pub set_default : {V : Type 0} → Text → V → Dict V → Dict V
set_default key v d = if contains key d then d else insert key v d

-- `{**a, **b}`
unfoldable pub merged : {V : Type 0} → Dict V → Dict V → Dict V
merged a [] = a
merged a ((k, v) ∷ b) = merged (insert k v a) b

-- `_derive_target_weights`, into the weights before
unfoldable pub weights_from : {F : Type 0} → Dict F → List (PositionTarget F) → Option (Dict F)
weights_from ws [] = some ws
weights_from ws (p ∷ ps) = bind p.target_weight λ w. weights_from (insert p.symbol w ws) ps

module _ {F V : Type 0} ⦃f : Float F⦄ (values : Values F V) (kit : MapperKit F V) where
  -- `d.get(key)`, if it is not None
  abbrev pub present : Text → Dict V → Option V
  present key d = elim (lookup key d) [
    | none ↦ none
    | some v ↦ if values.is_none v then none else some v
  ]

  -- `d.get(key)`, if it is true
  abbrev pub set_value : Text → Dict V → Option V
  set_value key d = elim (lookup key d) [
    | none ↦ none
    | some v ↦ if values.truthy v then some v else none
  ]

  -- `str(candidate or "").strip()`
  abbrev pub shown : Option V → Text
  shown none = []
  shown (some v) = if values.truthy v then strip (values.text v) else []

  abbrev pub first_shown : List (Option V) → Text → Text
  first_shown [] default = default
  first_shown (c ∷ cs) default =
      let rest = first_shown cs default in if is_blank_text (shown c) then rest else shown c

  unfoldable pub derive_signal_description : StrategyDecision F V → Dict V → Text
  derive_signal_description d metadata =
      first_shown
        (lookup (codes "signal_description") d.diagnostics
          ∷ lookup (codes "signal_display") d.diagnostics
          ∷ lookup (codes "signal_message") d.diagnostics
          ∷ lookup (codes "signal_description") metadata
          ∷ lookup (codes "signal_display") metadata
          ∷ [])
        (codes "decision_ready")

  unfoldable pub derive_status_description : StrategyDecision F V → Dict V → Text
  derive_status_description d metadata =
      first_shown
        (lookup (codes "status_description") d.diagnostics
          ∷ lookup (codes "canary_status") d.diagnostics
          ∷ lookup (codes "market_status") d.diagnostics
          ∷ lookup (codes "status_description") metadata
          ∷ [])
        (derive_signal_description d metadata)

  abbrev pub symbols_of : Option V → List Text
  symbols_of none = []
  symbols_of (some v) = values.elements v

  -- `_derive_managed_symbols`
  unfoldable pub derive_managed_symbols :
      StrategyDecision F V → Dict V → Option (Dict V) → List Text
  derive_managed_symbols d metadata payload =
      if is_some (set_value (codes "managed_symbols") metadata)
      then symbols_of (set_value (codes "managed_symbols") metadata)
      else if is_some (set_value (codes "strategy_symbols") (get_or payload []))
      then symbols_of (set_value (codes "strategy_symbols") (get_or payload []))
      else map (λ p. p.symbol) d.positions

  unfoldable pub first_safe_haven : List (PositionTarget F) → Option Text
  first_safe_haven [] = none
  first_safe_haven (p ∷ ps) =
      let rest = first_safe_haven ps in
      if text_eq p.role (codes "safe_haven") then some p.symbol else rest

  -- `_derive_safe_haven_symbol`
  unfoldable pub derive_safe_haven_symbol : StrategyDecision F V → Dict V → Option Text
  derive_safe_haven_symbol d metadata = elim (set_value (codes "safe_haven_symbol") metadata) [
    | some v ↦ some (values.text v)
    | none ↦ first_safe_haven d.positions
  ]

  abbrev pub annotations_at : Dict V → Dict V
  annotations_at d = elim (lookup (codes "execution_annotations") d) [
    | none ↦ []
    | some v ↦ get_or (values.as_mapping v) []
  ]

  -- `_derive_execution_annotations`
  unfoldable pub derive_execution_annotations : Dict V → Dict V → Dict V
  derive_execution_annotations diagnostics metadata =
      merged (annotations_at metadata) (annotations_at diagnostics)
