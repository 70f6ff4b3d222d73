-- ===== src/Execution/Options.antt =====
-- application/execution_service.py: the option order intents of a cycle.
pub mod Budget
use ibkrquant.Prelude.{
  Bool, true, ◌&&◌, not, List, [], ◌∷◌, Option, none, some, Text, codes, strip, upper, lower,
  starts_with, normalize, text_eq, mem_text, unique, sorted, is_blank_text, keep, map, any,
  if◌then◌else◌,
}
use ibkrquant.Number.{Float, ◌⊖◌, ◌⊗◌, ◌≼◌, ◌≺◌, nought, max, is_zero}
use ibkrquant.Execution.Types.{
  Side, unsupported_option_intent_type, option_insufficient_buying_power, Intent, Row, Buckets,
  Summary,
}
use ibkrquant.Execution.Outcome.{is_failed, append}
use ibkrquant.Execution.Orders.{Desk, add_reason, dry_run_row, reported_row, record_report}
use ibkrquant.Execution.Run.{Action, pure, ◌>>=◌, ◌>>◌, update, submit_claimed_order}

-- What the code reads of an option intent; a missing text is empty and a missing number zero.
pub record OptionIntent (F : Type 0) : Type 0 where
  pub underlier : Text
  pub symbol : Text
  pub asset_class : Text
  pub intent_type : Text
  pub action : Text
  pub order_type : Text
  pub time_in_force : Text
  -- the text by which the order is shown, `_format_option_intent_symbol`
  pub label : Text
  pub quantity : F
  pub limit_price : Option F
  pub contract_multiplier : F
  pub max_notional_usd : F
  pub max_loss_usd : F

-- How one turn of the loop of `_execute_option_order_intents` ends.
pub data OptionTurn : Type 0 where
  ignore zero_quantity no_money no_money_for_risk place : OptionTurn

-- `text or default`
abbrev or_default : Text → Text → Text
or_default t default = if is_blank_text t then default else t

module _ {F : Type 0} where
  abbrev pub action_of : OptionIntent F → Text
  action_of i = lower (strip i.action)

  abbrev pub is_multi_leg : OptionIntent F → Bool
  is_multi_leg i = text_eq (strip i.intent_type) (codes "multi_leg_option")

  abbrev pub is_buy : OptionIntent F → Bool
  is_buy i = starts_with (action_of i) (codes "buy")

  -- `_is_executable_option_intent`
  unfoldable pub is_executable_option_intent : OptionIntent F → Bool
  unfolding strip lower
  is_executable_option_intent i =
      let is_option = text_eq (lower (strip i.asset_class)) (codes "option") in
      if is_option
        && text_eq (strip i.intent_type) (codes "single_leg_option")
        && mem_text (action_of i) (codes "buy_to_open" ∷ codes "sell_to_close" ∷ [])
      then true
      else is_option
        && is_multi_leg i
        && text_eq (action_of i) (codes "sell_to_open_put_credit_spread")

  -- `_has_executable_option_plan`
  abbrev pub has_executable_option_plan : List (OptionIntent F) → Bool
  has_executable_option_plan = any is_executable_option_intent

  -- `str(intent.get("underlier") or intent.get("symbol") or "").strip().upper()`
  unfoldable pub underlier_of : OptionIntent F → Text
  unfolding normalize
  underlier_of i = normalize (or_default i.underlier i.symbol)

  -- `_option_intent_underliers`
  unfoldable pub option_intent_underliers : List (OptionIntent F) → List Text
  unfolding underlier_of
  option_intent_underliers intents =
      sorted (unique (keep (λ s. not (is_blank_text s)) (map underlier_of intents)))

  abbrev pub on_options : (Buckets F → Buckets F) → Summary F → Summary F
  on_options g s = record s { option_orders = g s.option_orders }

  abbrev pub skip_option :
      OptionIntent F → Text → Option F → Option F → Text → Summary F → Summary F
  skip_option i action quantity limit_price reason = on_options λ b. record b {
    skipped = append b.skipped (record {
      symbol = i.label;
      action = some action;
      quantity = quantity;
      limit_price = limit_price;
      reason = reason;
    });
  }

  -- `_record_unsupported_option_intents`
  unfoldable pub record_unsupported_option_intents : List (OptionIntent F) → Summary F → Summary F
  record_unsupported_option_intents [] s = s
  record_unsupported_option_intents (i ∷ is) s = record_unsupported_option_intents is (
      if is_executable_option_intent i
      then s
      else add_reason (unsupported_option_intent_type i.label)
          (skip_option i i.action none none (codes "unsupported_option_intent_type") s))

module _ {F : Type 0} ⦃f : Float F⦄ where
  abbrev pub limit_of : OptionIntent F → F
  limit_of i = elim i.limit_price [ none ↦ nought | some p ↦ p ]

  -- `number or default`
  abbrev or_number : F → F → F
  or_number x default = if is_zero x then default else x

  unfoldable pub estimated_notional : OptionIntent F → F
  estimated_notional i =
      or_number i.max_notional_usd
        (i.quantity ⊗ limit_of i ⊗ or_number i.contract_multiplier (f.lit 100 0))

  -- what may be spent of the buying power
  abbrev pub option_budget : F → F
  option_budget buying_power = max nought (buying_power ⊗ f.lit 95 2)

  -- what the order takes off the buying power
  unfoldable pub option_charge : OptionIntent F → F → F
  unfolding estimated_notional
  option_charge i buying_power =
      if is_buy i
      then buying_power ⊖ estimated_notional i
      else if is_multi_leg i
      then buying_power ⊖ i.max_loss_usd
      else buying_power

  -- the tests of that turn
  unfoldable pub option_turn : OptionIntent F → F → OptionTurn
  unfolding is_executable_option_intent estimated_notional
  option_turn i buying_power =
      if not (is_executable_option_intent i)
      then ignore
      else if i.quantity ≼ nought
      then zero_quantity
      else if is_buy i && option_budget buying_power ≺ estimated_notional i
      then no_money
      else if is_multi_leg i && option_budget buying_power ≺ i.max_loss_usd
      then no_money_for_risk
      else place

  abbrev pub option_row : OptionIntent F → Row F
  option_row i = dry_run_row i.label (action_of i) i.quantity (some (limit_of i))

module _ {F S : Type 0} ⦃f : Float F⦄ (desk : Desk F S) where
  -- `_build_single_leg_option_order_intent` and `_build_multi_leg_option_order_intent`
  unfoldable pub build_option_order_intent : OptionIntent F → Intent F
  unfolding underlier_of lower
  build_option_order_intent i = record {
    symbol = underlier_of i;
    side = if not (is_multi_leg i) && is_buy i then Side.buy else Side.sell;
    quantity = i.quantity;
    order_type = some (lower (strip (or_default i.order_type (codes "limit"))));
    limit_price = i.limit_price;
    time_in_force = some (upper (strip (or_default i.time_in_force (codes "DAY"))));
    account_id = desk.order_account_id;
    security_type = some (if is_multi_leg i then codes "BAG" else codes "OPT");
  }

  unfoldable pub submit_option : OptionIntent F → F → Action F S F
  submit_option i buying_power = do
    report ← submit_claimed_order desk.broker (build_option_order_intent i)
    outcome ←
        record_report true
          (reported_row i.label (action_of i) i.quantity (some (limit_of i)) report)
    pure (if is_failed outcome then buying_power else option_charge i buying_power)

  unfoldable pub option_act : OptionIntent F → OptionTurn → F → Action F S F
  option_act i ignore p = pure p
  option_act i zero_quantity p = do
    update (skip_option i i.action none none (codes "quantity_zero"))
    pure p
  option_act i no_money p = do
    update (
        skip_option i (action_of i) (some i.quantity) (some (limit_of i))
          (codes "insufficient_buying_power"))
    update (add_reason (option_insufficient_buying_power i.label))
    pure p
  option_act i no_money_for_risk p = do
    update (
        skip_option i (action_of i) (some i.quantity) (some (limit_of i))
          (codes "insufficient_buying_power_for_defined_risk"))
    update (add_reason (option_insufficient_buying_power i.label))
    pure p
  option_act i place p =
      if desk.dry_run_only
      then (do
        update (on_options λ b. record b { submitted = append b.submitted (option_row i) })
        pure (option_charge i p))
      else submit_option i p

  unfoldable pub option_loop : List (OptionIntent F) → F → Action F S F
  option_loop [] p = pure p
  option_loop (i ∷ is) p = do p' ← option_act i (option_turn i p) p; option_loop is p'

  -- `_execute_option_order_intents`
  unfoldable pub execute_option_order_intents : List (OptionIntent F) → F → Action F S F
  execute_option_order_intents intents p = do
    update (record_unsupported_option_intents intents)
    option_loop intents p
