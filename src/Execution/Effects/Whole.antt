-- ===== src/Execution/Effects/Whole.antt =====
-- What holds from the start to the end of `lock_and_trade` holds of a whole run: everything before it
-- changes nothing but the summary.
use ibkrquant.Prelude.{◌≡◌, not, is_empty, Option, none, some, Text}
use ibkrquant.Number.{Float}
use ibkrquant.Execution.Types.{ok, Broker}
use ibkrquant.Execution.Run.{Run}
use ibkrquant.Execution.Accounts.{normalize_account_ids, resolve_order_account_id}
use ibkrquant.Execution.Guards.{resolve_execution_mode}
use ibkrquant.Execution.Targets.{Allocation}
use ibkrquant.Execution.Orders.{Desk}
use ibkrquant.Execution.Rebalance.{Args, Kit, Setup, resolve_equity}
use ibkrquant.Execution.Cycle.{
  Draft, lock_and_trade, conclude_plan, follow_draft, plan_and_trade, admit_and_plan, admitted,
  with_equity, execute_rebalance, desk_for,
}
use ibkrquant.Execution.Effects.{
  Keeps, Frame, bind-Keeps, stay-Keeps, if-Keeps, noted-Keeps, read-Keeps, lift-bind-Keeps,
}

module _ {F S : Type 0} ⦃f : Float F⦄ (a : Args F) (kit : Kit F) (desk : Desk F S) (mode : Text)
    {R : Run F S → Run F S → Type 0} (frame : Frame R)
    (traded : (u : Setup F) (anticipated sweep : F)
      → Keeps R (lock_and_trade a kit desk mode u anticipated sweep)) where
  follow_draft-Keeps :
      (u : Setup F) (anticipated : F) (d : Draft F)
      → Keeps R (follow_draft a kit desk mode u anticipated d)
  unfolding follow_draft conclude_plan
  follow_draft-Keeps u anticipated d =
      if-Keeps frame d.has_plan (λ _. traded u anticipated d.sweep)
        λ _.
          bind-Keeps frame (record { holds = λ run. frame.on_summary run _ })
            λ goes_on.
              if-Keeps frame goes_on (λ _. traded u anticipated d.sweep) (λ _. stay-Keeps frame _)

  plan_and_trade-Keeps : (u : Setup F) → Keeps R (plan_and_trade a kit desk mode u)
  unfolding plan_and_trade
  plan_and_trade-Keeps u =
      bind-Keeps frame (read-Keeps frame _) (λ anticipated. follow_draft-Keeps u anticipated _)

  admit_and_plan-Keeps : (u : Setup F) → Keeps R (admit_and_plan a kit desk mode u)
  unfolding admit_and_plan
  admit_and_plan-Keeps u = bind-Keeps frame (noted-Keeps frame _) λ _.
      bind-Keeps frame (read-Keeps frame _) λ pending.
        if-Keeps frame (not (admitted a kit desk u)) (λ _. noted-Keeps frame _)
          λ _.
            if-Keeps frame (not (is_empty pending)) (λ _. noted-Keeps frame _)
              (λ _. plan_and_trade-Keeps u)

module _ {F S : Type 0} ⦃f : Float F⦄ (a : Args F) (kit : Kit F) (broker : Broker F S)
    {R : Run F S → Run F S → Type 0} (frame : Frame R)
    (traded : (mode : Text)
      → resolve_execution_mode a.dry_run_only a.execution_mode ≡ ok mode
      → (account : Option Text)
      → resolve_order_account_id (normalize_account_ids a.account_ids) ≡ ok account
      → (u : Setup F) (anticipated sweep : F)
      → Keeps R
          (lock_and_trade a kit (desk_for a kit broker account) mode u anticipated sweep)) where
  with_equity-Keeps :
      (alloc : Allocation F) (mode : Text)
      → resolve_execution_mode a.dry_run_only a.execution_mode ≡ ok mode
      → (account : Option Text)
      → resolve_order_account_id (normalize_account_ids a.account_ids) ≡ ok account
      → (equity : Option F) → Keeps R (with_equity a kit broker alloc mode account equity)
  unfolding with_equity
  with_equity-Keeps alloc mode m account e none = noted-Keeps frame _
  with_equity-Keeps alloc mode m account e (some equity) = bind-Keeps frame (read-Keeps frame _) (
      admit_and_plan-Keeps a kit (desk_for a kit broker account) mode frame
        (traded mode m account e))

  pub execute_rebalance-Keeps : Keeps R (execute_rebalance a kit broker)
  unfolding execute_rebalance
  execute_rebalance-Keeps = lift-bind-Keeps frame _ λ alloc _. lift-bind-Keeps frame _ λ mode m.
      lift-bind-Keeps frame _ λ account e.
        bind-Keeps frame (noted-Keeps frame _)
          (λ _. with_equity-Keeps alloc mode m account e (resolve_equity a))
