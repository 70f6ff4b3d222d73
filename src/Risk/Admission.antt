-- ===== src/Risk/Admission.antt =====
-- application/account_new_risk_gate_support.py: the snapshot that the gate judges, and its verdict.
use ibkrquant.Prelude.{
  Bool, true, false, ◌&&◌, ◌||◌, not, is_blank_text, List, [], ◌∷◌, Option, none, some, Text, codes,
  strip, upper, text_eq, is_some, get_or, if◌then◌else◌,
}
use ibkrquant.Number.{Float, ◌≼◌, ◌≺◌, ◌⊗◌, nought}

-- `NewRiskAdmissionResult`
pub record Admission (F : Type 0) : Type 0 where
  -- `disposition == NEW_RISK_PROHIBITED`
  pub prohibited : Bool
  pub reason_codes : List Text
  pub combined_scale : Option F

-- `InjectedReconciliationSnapshot`
pub record RiskSnapshot (F : Type 0) : Type 0 where
  pub observation_status : Text
  pub reconciliation_status : Text
  pub circuit_breaker_state : Text
  pub equity_usd : Option F
  pub peak_equity_usd : Option F
  pub drawdown_from_peak : Option F
  pub realized_vol : Option F

-- A projection as a dict. A number is what `float` makes of the value, and `none` if it raises or the
-- value is missing or a bool; the last three say first whether the key is there.
pub record Projection (F : Type 0) : Type 0 where
  pub observation_status : Option Text
  pub reconciliation_status : Option Text
  pub circuit_breaker_state : Option Text
  pub unknown_pending_orders : Option Bool
  pub durable_circuit_breaker_state : Option Text
  pub equity_usd : Option F
  pub peak_equity_usd : Option (Option F)
  pub drawdown_from_peak : Option (Option F)
  pub realized_vol : Option (Option F)

-- A portfolio dict, its numbers as above.
pub record Portfolio (F : Type 0) : Type 0 where
  pub total_equity : Option F
  pub total_strategy_equity : Option F
  pub equity : Option F
  pub unknown_pending_orders : Option Bool
  pub durable_circuit_breaker_state : Option Text
  -- the two of `metadata`
  pub metadata_unknown_pending_orders : Bool
  pub metadata_durable_circuit_breaker_state : Option Text
  pub account_new_risk_snapshot : Projection F
  pub peak_equity_usd : Option F
  pub drawdown_from_peak : Option F
  pub realized_vol : Option F

-- What `account_values` and `signal_metadata` hold for the gate: a key of the first goes before the same
-- key of the second.
pub record AccountEvidence (F : Type 0) : Type 0 where
  pub equity : Option F
  pub unknown_pending_orders : Option Bool
  pub durable_circuit_breaker_state : Option Text
  pub account_new_risk_snapshot : Projection F
  pub peak_equity_usd : Option F
  pub drawdown_from_peak : Option F
  pub realized_vol : Option F

-- `CycleNewRiskHealthEvidence`
pub record Evidence : Type 0 where
  pub observation_ok : Bool
  pub unknown_pending : Bool
  pub durable_breaker_open : Bool

-- What the module calls: `math.isfinite`, `apply_cycle_new_risk_health_axes`, and
-- `evaluate_new_risk_admission`, where `none` is an `AccountNewRiskGateError`.
pub record RiskKit (F : Type 0) : Type 0 where
  pub is_finite : F → Bool
  pub apply_axes : Projection F → Evidence → Projection F
  pub evaluate : RiskSnapshot F → Option (Admission F)

-- the first of the states that is there
abbrev first_state : List (Option Text) → Option Text
first_state [] = none
first_state (none ∷ states) = first_state states
first_state (some s ∷ states) = some s

abbrev status_or : Option Text → Text → Text
status_or none default = default
status_or (some s) default = if is_blank_text s then default else s

abbrev is_open : Option Text → Bool
is_open none = false
is_open (some s) = text_eq (upper (strip s)) (codes "OPEN")

abbrev pub refused : {F : Type 0} → Text → Admission F
refused reason = record { prohibited = true; reason_codes = reason ∷ []; combined_scale = none }

module _ {F : Type 0} where
  -- `_resolve_unknown_pending`
  unfoldable pub resolve_unknown_pending : Portfolio F → Projection F → Bool
  resolve_unknown_pending p projection =
      get_or projection.unknown_pending_orders
        (get_or p.unknown_pending_orders p.metadata_unknown_pending_orders)

  -- `_resolve_durable_breaker_open`
  unfoldable pub resolve_durable_breaker_open : Portfolio F → Projection F → Bool
  resolve_durable_breaker_open p projection = is_open (
      first_state (
        projection.durable_circuit_breaker_state ∷ p.durable_circuit_breaker_state
        ∷ p.metadata_durable_circuit_breaker_state ∷ []))

module _ {F : Type 0} ⦃f : Float F⦄ (kit : RiskKit F) where
  -- `_coerce_optional_float`
  abbrev pub coerce : Option F → Option F
  coerce none = none
  coerce (some x) = if kit.is_finite x then some x else none

  abbrev positive : Option F → Option F
  positive none = none
  positive (some x) = if nought ≺ x then some x else none

  abbrev or_else : Option F → Option F → Option F
  or_else none y = y
  or_else (some x) y = some x

  -- `_resolve_equity_usd`, with `execution["portfolio_total_equity"]`
  unfoldable pub resolve_equity_usd : Portfolio F → Option F → Option F
  resolve_equity_usd p execution = or_else (positive (coerce p.total_equity)) (
      or_else (positive (coerce p.total_strategy_equity))
        (or_else (positive (coerce p.equity)) (positive (coerce execution))))

  -- `build_account_new_risk_snapshot`
  unfoldable pub build_account_new_risk_snapshot : Portfolio F → Option F → Projection F
  build_account_new_risk_snapshot p execution =
      let projection = p.account_new_risk_snapshot in
      let equity = or_else (coerce projection.equity_usd) (resolve_equity_usd p execution) in
      record (kit.apply_axes projection (record {
        observation_ok = is_some equity;
        unknown_pending = resolve_unknown_pending p projection;
        durable_breaker_open = resolve_durable_breaker_open p projection;
      })) { equity_usd = equity }

  abbrev portfolio_with : AccountEvidence F → Projection F → Portfolio F
  portfolio_with e projection = record {
    total_equity = coerce e.equity;
    total_strategy_equity = none;
    equity = none;
    unknown_pending_orders = e.unknown_pending_orders;
    durable_circuit_breaker_state = e.durable_circuit_breaker_state;
    metadata_unknown_pending_orders = false;
    metadata_durable_circuit_breaker_state = none;
    account_new_risk_snapshot = projection;
    peak_equity_usd = e.peak_equity_usd;
    drawdown_from_peak = e.drawdown_from_peak;
    realized_vol = e.realized_vol;
  }

  -- `build_portfolio_from_account_values`
  unfoldable pub build_portfolio_from_account_values : AccountEvidence F → Portfolio F
  build_portfolio_from_account_values e =
      portfolio_with e
        (build_account_new_risk_snapshot (portfolio_with e e.account_new_risk_snapshot) none)

  abbrev keyed : Option (Option F) → Option F → Option F
  keyed none y = coerce y
  keyed (some x) y = coerce x

  -- `build_snapshot_from_portfolio`
  unfoldable pub build_snapshot_from_portfolio : Portfolio F → Option F → RiskSnapshot F
  build_snapshot_from_portfolio p execution =
      let projection = build_account_new_risk_snapshot p execution in
      record {
        observation_status = status_or projection.observation_status (codes "UNAVAILABLE");
        reconciliation_status = status_or projection.reconciliation_status (codes "UNVERIFIED");
        circuit_breaker_state = status_or projection.circuit_breaker_state (codes "OPEN");
        equity_usd = or_else (coerce projection.equity_usd) (resolve_equity_usd p execution);
        peak_equity_usd = keyed projection.peak_equity_usd p.peak_equity_usd;
        drawdown_from_peak = keyed projection.drawdown_from_peak p.drawdown_from_peak;
        realized_vol = keyed projection.realized_vol p.realized_vol;
      }

  -- `evaluate_portfolio_new_risk_admission`
  unfoldable pub evaluate_portfolio_new_risk_admission : Portfolio F → Option F → Admission F
  evaluate_portfolio_new_risk_admission p execution =
      get_or (kit.evaluate (build_snapshot_from_portfolio p execution))
        (refused (codes "SNAPSHOT_VALIDATION_FAIL_CLOSED"))

  -- `evaluate_cycle_new_risk_admission`, on `_cycle_snapshot`
  unfoldable pub evaluate_cycle_new_risk_admission : Option (RiskSnapshot F) → Admission F
  evaluate_cycle_new_risk_admission none = refused (codes "EQUITY_UNKNOWN_FAIL_CLOSED")
  evaluate_cycle_new_risk_admission (some s) =
      get_or (kit.evaluate s) (refused (codes "SNAPSHOT_VALIDATION_FAIL_CLOSED"))

  -- `apply_combined_scale`
  unfoldable pub apply_combined_scale : F → Option F → F
  apply_combined_scale value none = value
  apply_combined_scale value (some scale) =
      if not (kit.is_finite scale) || not (nought ≺ scale && scale ≼ f.lit 1 0)
      then value
      else value ⊗ scale

  -- the snapshot and the verdict of `execute_rebalance`
  unfoldable pub snapshot_of : AccountEvidence F → RiskSnapshot F
  snapshot_of e = build_snapshot_from_portfolio (build_portfolio_from_account_values e) none

  -- `evaluate_account_values_new_risk_admission`
  unfoldable pub evaluate_account_values_new_risk_admission : AccountEvidence F → Admission F
  evaluate_account_values_new_risk_admission e =
      evaluate_portfolio_new_risk_admission (build_portfolio_from_account_values e) none
