-- ===== src/Risk/Submission.antt =====
-- application/ibkr_order_execution.py: `submit_order_intent`, and what of a run reaches IBKR.
use ibkrquant.Prelude.{
  Bool, true, false, ◌&&◌, ◌∷◌, [], ◌++◌, List, Option, none, some, Text, codes, is_blank_text,
  if◌then◌else◌,
}
use ibkrquant.Number.{Float}
use ibkrquant.Execution.Types.{Result, ok, Side, Intent, Report, Broker}
use ibkrquant.Risk.Admission.{
  RiskKit, RiskSnapshot, Admission, evaluate_cycle_new_risk_admission, apply_combined_scale,
}

-- The gate: whether it is enabled, the snapshot of the cycle, and `ExecutionReport` with its defaults.
pub record Gate (F : Type 0) : Type 0 where
  pub is_account_new_risk_gate_enabled : Bool
  pub cycle_snapshot : Option (RiskSnapshot F)
  pub risk : RiskKit F
  pub blank_report : Report F

abbrev pub is_buy : Side → Bool
is_buy Side.buy = true
is_buy Side.sell = false

abbrev or_day : Option Text → Option Text
or_day none = some (codes "DAY")
or_day (some t) = some (if is_blank_text t then codes "DAY" else t)

module _ {F : Type 0} where
  -- `_intent_with_default_time_in_force`
  unfoldable pub intent_with_default_time_in_force : Intent F → Intent F
  intent_with_default_time_in_force i = record i { time_in_force = or_day i.time_in_force }

module _ {F S : Type 0} ⦃f : Float F⦄ (gate : Gate F)
    (submit : Intent F → S → Result (Report F) × S) where
  abbrev pub judged : Admission F → Intent F → S → Result (Report F) × S
  judged admission i s =
      if admission.prohibited
      then (ok (record gate.blank_report { status = codes "rejected"; quantity = i.quantity }), s)
      else submit
          (record i {
            quantity = apply_combined_scale gate.risk i.quantity admission.combined_scale;
          })
          s

  -- `submit_order_intent`, on the one of `quant_platform_kit`
  unfoldable pub submit_order_intent : Intent F → S → Result (Report F) × S
  submit_order_intent order_intent s =
      let i = intent_with_default_time_in_force order_intent in
      if gate.is_account_new_risk_gate_enabled && is_buy i.side
      then judged (evaluate_cycle_new_risk_admission gate.risk gate.cycle_snapshot) i s
      else submit i s

module _ {F S : Type 0} where
  -- the submission of `quant_platform_kit`, with a log of the orders that it is given
  abbrev pub logged :
      (Intent F → S → Result (Report F) × S)
      → Intent F
      → S × List (Intent F)
      → Result (Report F) × (S × List (Intent F))
  logged submit i s = let (r, s') = submit i s.0 in (r, (s', s.1 ++ i ∷ []))

  abbrev pub beside_log :
      Option (S → Result Bool × S)
      → Option (S × List (Intent F) → Result Bool × (S × List (Intent F)))
  beside_log none = none
  beside_log (some acquire) = some (λ s. let (r, s') = acquire s.0 in (r, (s', s.1)))

  -- the broker that the execution uses, behind the gate
  unfoldable pub gated : ⦃f : Float F⦄ → Gate F → Broker F S → Broker F (S × List (Intent F))
  gated gate b = record {
    submit = submit_order_intent gate (logged b.submit);
    claim = beside_log b.claim;
    settle = λ s. (b.settle s.0, s.1);
    account_values = λ s. b.account_values s.0;
    open_orders = λ s. b.open_orders s.0;
    fills = λ s. b.fills s.0;
    quotes = λ symbols s. b.quotes symbols s.0;
  }
