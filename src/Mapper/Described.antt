-- ===== src/Mapper/Described.antt =====
-- decision_mapper.py: the metadata of a decision, and `map_strategy_decision`.
use ibkrquant.Prelude.{
  Bool, not, List, [], ◌∷◌, Option, none, some, Text, codes, strip, mem_text, is_blank_text,
  is_empty, any, get_or, Dict, lookup, if◌then◌else◌,
}
use ibkrquant.Number.{Float}
use ibkrquant.Recovery.Ledger.{bind}
use ibkrquant.Mapper.{
  StrategyDecision, Values, MapperKit, Gate, Mapped, set_default, merged, derive_signal_description,
  derive_status_description, derive_managed_symbols, derive_safe_haven_symbol,
  derive_execution_annotations,
}
use ibkrquant.Mapper.Gates.{gate_of, weighed}

module _ {F V : Type 0} ⦃f : Float F⦄ (values : Values F V) (kit : MapperKit F V) where
  -- `if value: metadata.setdefault(key, value)`
  abbrev pub default_if : Bool → Text → V → Dict V → Dict V
  default_if b key v d = if b then set_default key v d else d

  abbrev pub or_shown : List (Option V) → Text
  or_shown [] = []
  or_shown (c ∷ cs) =
      let rest = or_shown cs in
      elim c [ none ↦ rest | some v ↦ if values.truthy v then strip (values.text v) else rest ]

  -- the metadata, default by default
  unfoldable pub described : Text → Gate V → StrategyDecision F V → Option (Dict V) → Dict V
  described profile g n payload =
      let m0 = merged g.metadata g.diagnostics in
      let m1 = set_default (codes "strategy_profile") (values.of_text profile) m0 in
      let m2 = set_default (codes "status_icon") (values.of_text (codes "🐤")) m1 in
      let m3 =
        set_default (codes "managed_symbols")
          (values.of_texts (derive_managed_symbols values kit n g.metadata payload)) m2 in
      let haven = get_or (derive_safe_haven_symbol values kit n g.metadata) [] in
      let m4 =
        default_if (not (is_blank_text haven)) (codes "safe_haven_symbol") (values.of_text haven)
          m3 in
      let m5 = set_default (codes "risk_flags") (values.of_texts g.risk_flags) m4 in
      let m6 = set_default (codes "actionable") (values.of_bool (not g.no_execute)) m5 in
      let m7 =
        default_if (not (is_empty (get_or payload []))) (codes "allocation")
          (values.of_mapping (get_or payload [])) m6 in
      let annotations = derive_execution_annotations values kit g.diagnostics g.metadata in
      let m8 =
        default_if (not (is_empty annotations)) (codes "execution_annotations")
          (values.of_mapping annotations) m7 in
      let dashboard = or_shown (
        lookup (codes "dashboard_text") annotations
        ∷ lookup (codes "dashboard") g.diagnostics
        ∷ lookup (codes "dashboard_text") m8
        ∷ []) in
      default_if (not (is_blank_text dashboard)) (codes "dashboard_text") (values.of_text dashboard)
        m8

  abbrev pub emergency_flags : List Text
  emergency_flags = codes "emergency" ∷ codes "hard_defense" ∷ []

  unfoldable pub map_strategy_decision : StrategyDecision F V → Text → Dict V → Option (Mapped F V)
  map_strategy_decision d strategy_profile metadata = bind (kit.profile strategy_profile) λ profile.
      bind (gate_of values kit d metadata) λ g. bind (weighed values kit d profile g) λ w.
        some (record {
          target_weights = w.1;
          signal_description = derive_signal_description values kit d g.metadata;
          is_emergency = any (λ flag. mem_text flag g.risk_flags) emergency_flags;
          status_description = derive_status_description values kit d g.metadata;
          metadata = described profile g w.0 w.2;
        })
