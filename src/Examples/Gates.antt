-- ===== src/Examples/Gates.antt =====
-- The new-risk gate and the paper commands, on the numbers of the samples.
use ibkrquant.Prelude.{ℕ, ◌*◌, ◌/◌, ◌≤◌, ◌≡◌, refl, true, false, List, [], none, some, arith}
use ibkrquant.Prelude.Int.{pos, negsuc}
use native.Mathlib.Nat.{div-le_of_le-mul}
use ibkrquant.Number.{◌≼◌, ◌≺◌, ◌⊗◌, nought}
use ibkrquant.Number.Fixed.{Fixed, fixed_float, dollars}
use ibkrquant.Execution.Types.{Side, Intent, Report}
use ibkrquant.Execution.Run.{Run}
use ibkrquant.Execution.Cycle.{execute_rebalance}
use ibkrquant.Execution.Summaries.{start_summary}
use ibkrquant.Examples.Samples.{xlk, args, kit, broker, claimed}
use ibkrquant.Risk.Admission.{Admission, RiskKit}
use ibkrquant.Risk.Submission.{Gate, logged, gated, submit_order_intent}
use ibkrquant.Risk.Buys.{
  Grows, IsSale, IsScaling, IsReduced, execute_rebalance-prohibited, submit_order_intent-reduces,
}

-- A gate that halves every purchase, where the cycle has a snapshot.
abbrev risk : RiskKit Fixed
risk = record {
  is_finite = λ _. true;
  apply_axes = λ projection _. projection;
  evaluate = λ _. some (record {
    prohibited = false;
    reason_codes = [];
    combined_scale = some (fixed_float.lit 5 1);
  });
}

abbrev report : Report Fixed
report = record {
  status = [];
  quantity = dollars 0;
  filled_quantity = dollars 0;
  average_fill_price = dollars 0;
  broker_order_id = none;
}

abbrev shut : Gate Fixed
shut = record {
  is_account_new_risk_gate_enabled = true;
  cycle_snapshot = none;
  risk = risk;
  blank_report = report;
}

abbrev halving : Gate Fixed
halving = record shut {
  cycle_snapshot = some (record {
    observation_status = [];
    reconciliation_status = [];
    circuit_breaker_state = [];
    equity_usd = none;
    peak_equity_usd = none;
    drawdown_from_peak = none;
    realized_vol = none;
  });
}

abbrev start : Run Fixed (Unit {0} × List (Intent Fixed))
start = record {
  world = record { session = (tt, []); sent = []; locks = [] };
  summary = start_summary (dollars 0);
}

execute_rebalance-prohibited_example :
    Grows IsSale []
      (execute_rebalance (args false) kit (gated shut (broker claimed [])) start).1.world.session.1
unfolding ibkrquant.Risk.Admission.evaluate_cycle_new_risk_admission
execute_rebalance-prohibited_example =
    execute_rebalance-prohibited shut refl refl (args false) kit (broker claimed []) start

part-le : (n m : ℕ) → m ≤ 10000 → n * m / 10000 ≤ n
part-le n m h = div-le_of_le-mul 10000 (grind arith)

scaled_le :
    (a s : Fixed)
    → (nought ≼ a) ≡ true
    → (nought ≺ s) ≡ true
    → (s ≼ fixed_float.lit 1 0) ≡ true
    → (a ⊗ s ≼ a) ≡ true
scaled_le (some (pos n)) (some (pos m)) h p q = ground (arith, part-le n m)
scaled_le (some (negsuc n)) s h p q = ground arith
scaled_le (some (pos n)) (some (negsuc m)) h p q = ground arith
scaled_le (some (pos n)) none h p q = cc
scaled_le none s h p q = cc

instance Fixed-IsScaling : IsScaling Fixed
Fixed-IsScaling = record { scaled_le = scaled_le; le_refl = λ a h. ground arith }

abbrev purchase : Intent Fixed
purchase = record {
  symbol = xlk;
  side = Side.buy;
  quantity = dollars 10;
  order_type = none;
  limit_price = none;
  time_in_force = none;
  account_id = none;
  security_type = none;
}

submit_order_intent-reduces_example :
    Grows
      (IsReduced purchase)
      []
      (submit_order_intent halving (logged (broker claimed []).submit) purchase (tt, [])).1.1
submit_order_intent-reduces_example =
    submit_order_intent-reduces halving (broker claimed []).submit purchase (tt, []) refl
