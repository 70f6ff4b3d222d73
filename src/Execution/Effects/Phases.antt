-- ===== src/Execution/Effects/Phases.antt =====
-- The phases of `execute_rebalance` keep what its statements keep.
use ibkrquant.Prelude.{
  ◌≡◌, Bool, false, List, Option, none, some, Text, ◌&&◌, not, is_empty, if◌then◌else◌,
}
use ibkrquant.Number.{Float, ◌≺◌, nought}
use ibkrquant.Execution.Types.{Reason, Intent}
use ibkrquant.Execution.Run.{Run, Action, pure, on_session}
use ibkrquant.Execution.Orders.{Desk, Sells}
use ibkrquant.Execution.Rebalance.{Args, Kit, Setup}
use ibkrquant.Execution.Blocks.{
  needs_buys, prohibited, power_after_sales, early_block, rotation_block, overdrawn, cash_block,
  raw_cash, or_else, block_buys,
}
use ibkrquant.Execution.Cycle.{purchases, trade}
use ibkrquant.Execution.Effects.{
  Keeps, Rule, bind-Keeps, stay-Keeps, if-Keeps, noted-Keeps, read-Keeps, lift-Keeps,
}
use ibkrquant.Execution.Effects.Loops.{
  sell_loop-Keeps, buy_loop-Keeps, execute_option_order_intents-Keeps,
}

module _ {F S : Type 0} ⦃f : Float F⦄ (a : Args F) (kit : Kit F) (desk : Desk F S)
    {R : Run F S → Run F S → Type 0} {Allowed : Intent F → Type 0}
    (rule : Rule R desk.broker desk.dry_run_only Allowed)
    (own : (i : Intent F) → i.account_id ≡ desk.order_account_id → Allowed i)
    (same : a.dry_run_only ≡ desk.dry_run_only) where
  open rule use {on_settle}

  done : {A : Type 0} (x : A) → Keeps R (pure {F = F} {S = S} x)
  done x = stay-Keeps rule.frame x

  settled : desk.dry_run_only ≡ false → Keeps R (on_session {F = F} desk.broker.settle)
  unfolding on_session
  settled live = record { holds = on_settle live }

  either :
      {A : Type 0} (b : Bool) {x y : Action F S A}
      → Keeps R x
      → Keeps R y
      → Keeps R (if b then x else y)
  either b hx hy = if-Keeps rule.frame b (λ _. hx) (λ _. hy)

  power_after_sales-Keeps :
      (anticipated : F) (v : Sells F) → Keeps R (power_after_sales a kit desk anticipated v)
  unfolding power_after_sales
  power_after_sales-Keeps anticipated v =
      if-Keeps rule.frame a.dry_run_only (λ _. done _)
        (λ live.
          either v.sell_executed
            (bind-Keeps rule.frame (settled (rw same at live))
              (λ _. bind-Keeps rule.frame (read-Keeps rule.frame _) (λ power. done _)))
            (done _))

  early_block-Keeps : (u : Setup F) → Keeps R (early_block a kit desk u)
  unfolding early_block
  early_block-Keeps u =
      either (a.small_account_warning && needs_buys u)
        (bind-Keeps rule.frame (noted-Keeps rule.frame _) (λ _. done _))
        (either (prohibited kit && needs_buys u)
          (bind-Keeps rule.frame (noted-Keeps rule.frame _) (λ _. done _)) (done _))

  rotation_block-Keeps :
      (u : Setup F) (investable : F) (releases : List Text)
      → Keeps R (rotation_block a kit desk u investable releases)
  unfolding rotation_block
  rotation_block-Keeps u investable releases =
      either (a.cash_only_execution && not (is_empty releases) && needs_buys u)
        (bind-Keeps rule.frame (lift-Keeps rule.frame _) (λ blocks.
          either blocks (bind-Keeps rule.frame (noted-Keeps rule.frame _) (λ _. done _)) (done _)))
        (done _)

  overdrawn-Keeps : (u : Setup F) (cash : Option F) → Keeps R (overdrawn a kit desk u cash)
  unfolding overdrawn
  overdrawn-Keeps u none = done _
  overdrawn-Keeps u (some v) =
      either (v ≺ nought && needs_buys u)
        (bind-Keeps rule.frame (noted-Keeps rule.frame _) (λ _. done _)) (done _)

  cash_block-Keeps : (u : Setup F) → Keeps R (cash_block a kit desk u)
  unfolding cash_block raw_cash
  cash_block-Keeps u =
      either a.cash_only_execution
        (bind-Keeps rule.frame (read-Keeps rule.frame _) (overdrawn-Keeps u)) (done _)

  or_else-Keeps :
      (first : Option (Reason F)) {m : Action F S (Option (Reason F))}
      → Keeps R m
      → Keeps R (or_else a kit desk first m)
  unfolding or_else
  or_else-Keeps none h = h
  or_else-Keeps (some r) h = done _

  block_buys-Keeps :
      (u : Setup F) (investable : F) (releases : List Text)
      → Keeps R (block_buys a kit desk u investable releases)
  unfolding block_buys
  block_buys-Keeps u investable releases = bind-Keeps rule.frame (early_block-Keeps u) (λ first.
      bind-Keeps rule.frame (or_else-Keeps first (rotation_block-Keeps u investable releases))
        (λ second. or_else-Keeps second (cash_block-Keeps u)))

  purchases-Keeps :
      (u : Setup F) (investable : F) (reason : Option (Reason F))
      → Keeps R (purchases a kit desk u investable reason)
  unfolding purchases
  purchases-Keeps u investable none = buy_loop-Keeps desk rule own u.cycle _ _
  purchases-Keeps u investable (some reason) =
      bind-Keeps rule.frame (noted-Keeps rule.frame _) (λ _. done _)

  pub trade-Keeps :
      (u : Setup F) (anticipated sweep : F) → Keeps R (trade a kit desk u anticipated sweep)
  unfolding trade
  trade-Keeps u anticipated sweep = bind-Keeps rule.frame (noted-Keeps rule.frame _) λ _.
      bind-Keeps rule.frame (sell_loop-Keeps desk rule own u.cycle _ _ _) λ v.
        bind-Keeps rule.frame (power_after_sales-Keeps anticipated v) λ power.
          bind-Keeps rule.frame (noted-Keeps rule.frame _) λ _.
            bind-Keeps rule.frame (block_buys-Keeps u _ _) λ reason.
              bind-Keeps rule.frame (purchases-Keeps u _ reason) λ _.
                bind-Keeps rule.frame (execute_option_order_intents-Keeps desk rule own _ power)
                  λ _. noted-Keeps rule.frame _
