-- ===== src/Execution/Options/Budget.antt =====
-- application/execution_service.py, `_execute_option_order_intents`: what an option order may cost.
use ibkrquant.Prelude.{◌≡◌, true, false, ◌&&◌, arith}
use ibkrquant.Number.{Float, ◌≼◌, ◌≺◌, nought}
use ibkrquant.Execution.Options.{
  OptionIntent, OptionTurn, is_executable_option_intent, is_buy, is_multi_leg, estimated_notional,
  option_budget, option_turn,
}

module _ {F : Type 0} ⦃f : Float F⦄ where
  -- An option order is placed only if its intent is of a kind that the program executes and its quantity
  -- is positive; a purchase costs no more than the budget, and so does the greatest loss of a spread.
  pub option_turn-place :
      (i : OptionIntent F) (buying_power : F)
      → option_turn i buying_power ≡ OptionTurn.place
      → (is_executable_option_intent i ≡ true)
        × ((i.quantity ≼ nought) ≡ false)
        × ((is_buy i && option_budget buying_power ≺ estimated_notional i) ≡ false)
        × ((is_multi_leg i && option_budget buying_power ≺ i.max_loss_usd) ≡ false)
  unfolding option_turn
  option_turn-place i buying_power h = ground arith
