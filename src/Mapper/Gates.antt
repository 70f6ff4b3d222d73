-- ===== src/Mapper/Gates.antt =====
-- decision_mapper.py: the tests that stop the execution of a decision, and its weights.
use ibkrquant.Prelude.{
  Bool, true, ◌&&◌, not, [], ◌∷◌, ◌++◌, Option, none, some, Text, codes, mem_text, unique, is_empty,
  get_or, Dict, lookup, insert, if◌then◌else◌,
}
use ibkrquant.Number.{Float, ◌≼◌}
use ibkrquant.Recovery.Ledger.{bind}
use ibkrquant.Mapper.{
  StrategyDecision, Values, MapperKit, Gate, allocation_order, set_default, weights_from, present,
}

module _ {F V : Type 0} ⦃f : Float F⦄ (values : Values F V) (kit : MapperKit F V) where
  -- a diagnostic that the platform computes
  abbrev pub with_input : Text → (V → Option V) → Dict V → Dict V → Option (Dict V)
  with_input key convert metadata diagnostics = elim (present values kit key metadata) [
    | none ↦ some diagnostics
    | some v ↦ bind (convert v) (λ x. some (insert key x diagnostics))
  ]

  unfoldable pub with_inputs : Dict V → Dict V → Option (Dict V)
  with_inputs metadata diagnostics =
      bind
        (with_input (codes "unrealized_pnl_pct")
          (λ v. bind (values.float v) (λ x. some (values.of_float x))) metadata diagnostics)
        (with_input (codes "consecutive_losses") values.int metadata)

  -- a reason not to execute
  abbrev pub blocked : Text → Gate V → Gate V
  blocked reason g = record g {
    no_execute = true;
    risk_flags = unique (g.risk_flags ++ (codes "no_execute" ∷ []));
    diagnostics =
        set_default (codes "execution_blocked_reason") (values.of_text reason) g.diagnostics;
  }

  unfoldable pub position_gate : StrategyDecision F V → Gate V → Gate V
  position_gate d g =
      if not g.no_execute && is_empty d.positions
      then blocked (codes "empty_position_decision") g
      else g

  -- `float(metadata.get("liquid_cash", metadata.get("available_cash", 0.0)) or 0.0)`
  abbrev pub cash_from : Option V → Option F
  cash_from none = some f.zero
  cash_from (some v) = if values.truthy v then values.float v else some f.zero

  unfoldable pub raw_cash : Dict V → Option F
  raw_cash metadata = elim (lookup (codes "liquid_cash") metadata) [
    | some v ↦ cash_from (some v)
    | none ↦ cash_from (lookup (codes "available_cash") metadata)
  ]

  abbrev pub market_values : Dict V → Dict V
  market_values metadata = elim (lookup (codes "market_values") metadata) [
    | none ↦ []
    | some v ↦ get_or (values.as_mapping v) []
  ]

  abbrev pub cash_only : Dict V → Bool
  cash_only metadata = elim (lookup (codes "cash_only_execution") metadata) [
    | none ↦ true
    | some v ↦ values.truthy v
  ]

  -- the test of the total equity
  abbrev pub equity_tested : F → F × Bool → Gate V → Gate V
  equity_tested total (effective, deleverage) g =
      if total ≼ f.zero
      then (if deleverage
          then record g {
            metadata =
                insert (codes "portfolio_total_equity") (values.of_float effective)
                  (insert (codes "cash_only_deleverage_mode") (values.of_bool true) g.metadata);
          }
          else record (blocked (codes "non_positive_total_equity") g) {
            diagnostics =
                set_default (codes "portfolio_total_equity") (values.of_float total)
                  (blocked (codes "non_positive_total_equity") g).diagnostics;
          })
      else g

  abbrev pub with_equity : Option V → Gate V → Option (Gate V)
  with_equity none g = some g
  with_equity (some v) g =
      if g.no_execute
      then some g
      else bind (values.float v) λ total. bind (raw_cash g.metadata) λ cash. some (
          equity_tested total
            (kit.equity_for_targets (market_values g.metadata) cash (cash_only g.metadata)) g)

  unfoldable pub equity_gate : Gate V → Option (Gate V)
  equity_gate g = with_equity (present values kit (codes "portfolio_total_equity") g.metadata) g

  -- all tests of a decision
  unfoldable pub gate_of : StrategyDecision F V → Dict V → Option (Gate V)
  gate_of d metadata = bind (with_inputs metadata d.diagnostics) λ diagnostics. equity_gate (
      position_gate d (record {
        no_execute = mem_text (codes "no_execute") d.risk_flags;
        risk_flags = d.risk_flags;
        diagnostics = diagnostics;
        metadata = metadata;
      }))

  abbrev pub payload_of : StrategyDecision F V → Text → Option (Option (Dict V))
  payload_of d profile =
      if is_empty d.positions
      then some none
      else bind (kit.allocation_payload d profile (allocation_order profile)) (λ p. some (some p))

  -- the decision in weights, its weights and its allocation, of a decision that is executed
  unfoldable pub weighed :
      StrategyDecision F V
      → Text
      → Gate V
      → Option (StrategyDecision F V × Option (Dict F) × Option (Dict V))
  weighed d profile g =
      if g.no_execute
      then some (d, none, none)
      else bind (kit.translate d (lookup (codes "portfolio_total_equity") g.metadata)) λ n.
        bind (weights_from [] n.positions)
          λ ws. bind (payload_of n profile) (λ p. some (n, some ws, p))
