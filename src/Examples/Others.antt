-- ===== src/Examples/Others.antt =====
-- application/paper_liquidation_service.py and scripts/runtime_heartbeat_policy.py: the theorems applied.
use ibkrquant.Prelude.{
  ◌↔◌, arith, is_some, ℕ, ◌≡◌, ◌==◌, refl, Bool, true, false, List, [], ◌∷◌, Option, none, some,
  codes, All, length, text_eq, mem_text, strip, lookup,
}
use ibkrquant.Prelude.Int.{pos}
use ibkrquant.Number.Fixed.{Fixed, fixed_float, dollars}
use ibkrquant.Number.{is_zero, abs}
use ibkrquant.Execution.Types.{Result, ok}
use ibkrquant.Liquidation.{
  Held, Close, Payload, LiquidationSummary, build_liquidation_intents, account_for, submit_all,
  execute_paper_liquidation, position_symbol, first_summary,
}
use ibkrquant.Liquidation.Accounting.{Settled, execute_paper_liquidation-Settled}
use ibkrquant.Heartbeat.Cron.{range_from, cron_field_values}
use ibkrquant.Heartbeat.Cron.Fields.{InField, cron_field_values-InField}
use ibkrquant.Heartbeat.Due.{Window, minutes_due, first_cursor, cron_due_at, last_such}
use ibkrquant.Heartbeat.Due.Ended.{IsEvaluable, cron_due_at-ends}
use ibkrquant.Heartbeat.Due.Latest.{IsLatest, cron_due_at-IsLatest}

abbrev holdings : List (Held Fixed)
holdings =
    record { hint = some (codes "voo"); symbol = none; quantity = dollars 3 }
    ∷ record { hint = none; symbol = some (codes "XLK"); quantity = dollars 0 }
    ∷ record {
      hint = none;
      symbol = some (codes "BOXX");
      quantity = fixed_float.sub (dollars 0) (dollars 2);
    }
    ∷ []

-- Sales are filled and purchases are turned down.
abbrev submit : Close Fixed → Unit {0} → Result (Payload Fixed) × Unit {0}
submit i s = (
  ok (record {
    symbol = i.symbol;
    side = i.side;
    quantity = i.quantity;
    status = elim (text_eq i.side (codes "sell")) [
      | true ↦ codes "Filled"
      | false ↦ codes "Inactive"
    ];
  }),
  s,
)

abbrev settled : LiquidationSummary Fixed
settled = elim (execute_paper_liquidation submit holdings false tt).0 [
  | ok t ↦ t
  | _ ↦ first_summary false holdings []
]

execute_paper_liquidation-Settled_example :
    Settled (length (build_liquidation_intents holdings)) settled
unfolding execute_paper_liquidation build_liquidation_intents submit_all account_for mem_text
    text_eq position_symbol strip is_zero abs
execute_paper_liquidation-Settled_example =
    execute_paper_liquidation-Settled submit holdings tt settled refl refl

abbrev rehearsed : LiquidationSummary Fixed
rehearsed = elim (execute_paper_liquidation submit holdings true tt).0 [
  | ok t ↦ t
  | _ ↦ first_summary false holdings []
]

cron_field_values-InField_example : All (InField 0 59) (0 ∷ 20 ∷ 40 ∷ 15 ∷ [])
unfolding cron_field_values text_eq mem_text range_from strip lookup
cron_field_values-InField_example =
    cron_field_values-InField 0 59 [] (codes "*/20, 15,75") (0 ∷ 20 ∷ 40 ∷ 15 ∷ []) refl

-- at minute 2 of each hour, seen from 90 seconds to 400 seconds with a grace of 60
abbrev window : Window
window = record { since = 90; now = 400; publication_grace = pos 60; market_aware = true }

abbrev at_minute_two : ℕ → Option Bool
at_minute_two t = some (t == 120)

cron_due_at-IsLatest_example :
    IsLatest window at_minute_two (λ t. true) (first_cursor 90) (last_such (λ t. true) (120 ∷ []))
unfolding cron_due_at
cron_due_at-IsLatest_example = cron_due_at-IsLatest window at_minute_two (λ t. true) (120 ∷ []) refl

cron_due_at-ends_example :
    (minutes_due window at_minute_two 1000 (first_cursor 90) ≡ cron_due_at window at_minute_two)
    × ((is_some (cron_due_at window at_minute_two) ≡ true)
        ↔ IsEvaluable window at_minute_two (first_cursor 90))
cron_due_at-ends_example = cron_due_at-ends window at_minute_two 1000 (omega arith)
