-- ===== src/Execution/Effects/Loops.antt =====
-- The loops over the sales, the purchases and the option orders keep what their statements keep.
use ibkrquant.Prelude.{◌≡◌, refl, Bool, false, List, [], ◌∷◌, Text, Dict}
use ibkrquant.Number.{Float}
use ibkrquant.Execution.Types.{Intent, Row}
use ibkrquant.Execution.Run.{Run, submit_claimed_order}
use ibkrquant.Execution.Plan.{Cycle}
use ibkrquant.Execution.Orders.{
  Desk, Sells, SellTurn, keep_position, sell, BuyTurn, enough, below_minimum, no_money, buy,
  record_report, sell_turn, sell_loop, buy_turn, buy_loop, sell_act, submit_sell, buy_act,
  submit_buy, report_buy,
}
use ibkrquant.Execution.Options.{
  OptionIntent, OptionTurn, option_turn, option_loop, execute_option_order_intents, option_act,
  submit_option, build_option_order_intent,
}
use ibkrquant.Execution.Effects.{Keeps, Rule, bind-Keeps, stay-Keeps, if-Keeps, noted-Keeps}

module _ {F S : Type 0} ⦃f : Float F⦄ (desk : Desk F S) {R : Run F S → Run F S → Type 0}
    {Allowed : Intent F → Type 0} (rule : Rule R desk.broker desk.dry_run_only Allowed)
    (own : (i : Intent F) → i.account_id ≡ desk.order_account_id → Allowed i) where
  open rule use {on_submit}
  open rule.frame use {on_summary}

  submitted :
      (i : Intent F)
      → desk.dry_run_only ≡ false
      → i.account_id ≡ desk.order_account_id
      → Keeps R (submit_claimed_order desk.broker i)
  submitted i live e = record { holds = on_submit live i (own i e) }

  reported : (option_order : Bool) (row : Row F) → Keeps R (record_report {S = S} option_order row)
  unfolding record_report
  reported option_order row = record { holds = λ run. on_summary run _ }

  submit_sell-Keeps :
      (s : Text) (price quantity : F) (v : Sells F)
      → desk.dry_run_only ≡ false
      → Keeps R (submit_sell desk s price quantity v)
  unfolding submit_sell
  submit_sell-Keeps s price quantity v live =
      bind-Keeps rule.frame (submitted _ live refl)
        (λ report. bind-Keeps rule.frame (reported _ _) (λ outcome. stay-Keeps rule.frame _))

  sell_act-Keeps : (s : Text) (t : SellTurn F) (v : Sells F) → Keeps R (sell_act desk s t v)
  unfolding sell_act
  sell_act-Keeps s keep_position v = stay-Keeps rule.frame _
  sell_act-Keeps s SellTurn.no_price v =
      bind-Keeps rule.frame (noted-Keeps rule.frame _)
        (λ _. bind-Keeps rule.frame (noted-Keeps rule.frame _) (λ _. stay-Keeps rule.frame _))
  sell_act-Keeps s (SellTurn.no_quantity overweight) v =
      bind-Keeps rule.frame (noted-Keeps rule.frame _) (λ _. stay-Keeps rule.frame _)
  sell_act-Keeps s (sell price quantity) v =
      if-Keeps rule.frame desk.dry_run_only
        (λ _. bind-Keeps rule.frame (noted-Keeps rule.frame _) (λ _. stay-Keeps rule.frame _))
        (λ live. submit_sell-Keeps s price quantity v live)

  pub sell_loop-Keeps :
      (c : Cycle F) (sweep : F) (ss : List Text) (v : Sells F)
      → Keeps R (sell_loop desk c sweep ss v)
  unfolding sell_loop
  sell_loop-Keeps c sweep [] v = stay-Keeps rule.frame _
  sell_loop-Keeps c sweep (s ∷ ss) v =
      bind-Keeps rule.frame (sell_act-Keeps s (sell_turn c sweep s) v) (sell_loop-Keeps c sweep ss)

  submit_buy-Keeps :
      (s : Text) (limit quantity power : F)
      → desk.dry_run_only ≡ false
      → Keeps R (submit_buy desk s limit quantity power)
  unfolding submit_buy report_buy
  submit_buy-Keeps s limit quantity power live =
      bind-Keeps rule.frame (submitted _ live refl)
        (λ report. bind-Keeps rule.frame (reported _ _) (λ outcome. stay-Keeps rule.frame _))

  buy_act-Keeps : (s : Text) (t : BuyTurn F) (power : F) → Keeps R (buy_act desk s t power)
  unfolding buy_act
  buy_act-Keeps s enough power = stay-Keeps rule.frame _
  buy_act-Keeps s BuyTurn.no_price power =
      bind-Keeps rule.frame (noted-Keeps rule.frame _)
        (λ _. bind-Keeps rule.frame (noted-Keeps rule.frame _) (λ _. stay-Keeps rule.frame _))
  buy_act-Keeps s below_minimum power =
      bind-Keeps rule.frame (noted-Keeps rule.frame _) (λ _. stay-Keeps rule.frame _)
  buy_act-Keeps s BuyTurn.no_quantity power =
      bind-Keeps rule.frame (noted-Keeps rule.frame _) (λ _. stay-Keeps rule.frame _)
  buy_act-Keeps s no_money power =
      bind-Keeps rule.frame (noted-Keeps rule.frame _)
        (λ _. bind-Keeps rule.frame (noted-Keeps rule.frame _) (λ _. stay-Keeps rule.frame _))
  buy_act-Keeps s (buy limit quantity) power =
      if-Keeps rule.frame desk.dry_run_only
        (λ _. bind-Keeps rule.frame (noted-Keeps rule.frame _) (λ _. stay-Keeps rule.frame _))
        (λ live. submit_buy-Keeps s limit quantity power live)

  pub buy_loop-Keeps : (c : Cycle F) (d : Dict F) (power : F) → Keeps R (buy_loop desk c d power)
  unfolding buy_loop
  buy_loop-Keeps c [] power = stay-Keeps rule.frame _
  buy_loop-Keeps c ((s, target) ∷ d) power =
      bind-Keeps rule.frame (buy_act-Keeps s (buy_turn c power s target) power) (buy_loop-Keeps c d)

  submit_option-Keeps :
      (i : OptionIntent F) (p : F) → desk.dry_run_only ≡ false → Keeps R (submit_option desk i p)
  unfolding submit_option build_option_order_intent
  submit_option-Keeps i p live =
      bind-Keeps rule.frame (submitted _ live refl)
        (λ report. bind-Keeps rule.frame (reported _ _) (λ outcome. stay-Keeps rule.frame _))

  option_act-Keeps : (i : OptionIntent F) (t : OptionTurn) (p : F) → Keeps R (option_act desk i t p)
  unfolding option_act
  option_act-Keeps i OptionTurn.ignore p = stay-Keeps rule.frame _
  option_act-Keeps i OptionTurn.zero_quantity p =
      bind-Keeps rule.frame (noted-Keeps rule.frame _) (λ _. stay-Keeps rule.frame _)
  option_act-Keeps i OptionTurn.no_money p =
      bind-Keeps rule.frame (noted-Keeps rule.frame _)
        (λ _. bind-Keeps rule.frame (noted-Keeps rule.frame _) (λ _. stay-Keeps rule.frame _))
  option_act-Keeps i OptionTurn.no_money_for_risk p =
      bind-Keeps rule.frame (noted-Keeps rule.frame _)
        (λ _. bind-Keeps rule.frame (noted-Keeps rule.frame _) (λ _. stay-Keeps rule.frame _))
  option_act-Keeps i OptionTurn.place p =
      if-Keeps rule.frame desk.dry_run_only
        (λ _. bind-Keeps rule.frame (noted-Keeps rule.frame _) (λ _. stay-Keeps rule.frame _))
        (λ live. submit_option-Keeps i p live)

  option_loop-Keeps : (is : List (OptionIntent F)) (p : F) → Keeps R (option_loop desk is p)
  unfolding option_loop
  option_loop-Keeps [] p = stay-Keeps rule.frame _
  option_loop-Keeps (i ∷ is) p =
      bind-Keeps rule.frame (option_act-Keeps i (option_turn i p) p) (option_loop-Keeps is)

  pub execute_option_order_intents-Keeps :
      (is : List (OptionIntent F)) (p : F) → Keeps R (execute_option_order_intents desk is p)
  unfolding execute_option_order_intents
  execute_option_order_intents-Keeps is p =
      bind-Keeps rule.frame (noted-Keeps rule.frame _) (λ _. option_loop-Keeps is p)
