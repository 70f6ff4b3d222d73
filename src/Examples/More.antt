-- ===== src/Examples/More.antt =====
-- Option orders of application/execution_service.py and due targets of
-- scripts/runtime_heartbeat_policy.py: the theorems applied.
use ibkrquant.Prelude.{true, false, List, [], ◌∷◌, none, some, codes, text_eq}
use Prim.Native.String.{String}
use ibkrquant.Prelude.Int.{pos}
use ibkrquant.Number.Fixed.{Fixed, fixed_float, dollars}
use ibkrquant.Execution.Options.{OptionIntent}
use ibkrquant.Heartbeat.Cron.{Moment}
use ibkrquant.Heartbeat.Due.{Clock, Window, Target}

-- one contract at 4 dollars
abbrev call : OptionIntent Fixed
call = record {
  underlier = codes "SPY";
  symbol = [];
  asset_class = codes "option";
  intent_type = codes "single_leg_option";
  action = codes "buy_to_open";
  order_type = codes "limit";
  time_in_force = codes "DAY";
  label = codes "SPY call";
  quantity = dollars 1;
  limit_price = some (dollars 4);
  contract_multiplier = dollars 100;
  max_notional_usd = dollars 0;
  max_loss_usd = dollars 0;
}

abbrev noon : Moment
noon = record { minute = 0; hour = 12; day = 2; month = 3; isoweekday = 4 }

-- every time is the same noon, and only UTC is known
abbrev clock : Clock
clock = record {
  zone_info = λ name. elim (text_eq name (codes "UTC")) [
    | true ↦ some (λ t. record { date = 1; moment = noon })
    | false ↦ none
  ];
  session_dates = λ _ _ _. none;
}

abbrev target_with : String → String → Target
target_with service zone = record {
  service = codes service;
  scheduler = some (record { main_time = codes "30 9 * * *"; timezone = codes zone });
  market_calendar = [];
  market_timezone = [];
  latest_due_at = none;
}

abbrev window : Window
window = record { since = 0; now = 120; publication_grace = pos 0; market_aware = true }

abbrev targets : List Target
targets = target_with "us" "UTC" ∷ target_with "nowhere" "Mars" ∷ []
