-- ===== src/Execution/Effects/Endings.antt =====
-- application/execution_service.py: the status in which `execute_rebalance` returns.
use ibkrquant.Prelude.{
  ◌≡◌, refl, Bool, true, false, not, is_empty, Option, none, some, Text, if◌then◌else◌, arith,
}
use ibkrquant.Number.{Float}
use ibkrquant.Execution.Types.{Result, ok, raise, Status, Summary, Broker}
use ibkrquant.Execution.Run.{Run, Action, next, pure, update, ◌>>=◌}
use ibkrquant.Execution.Orders.{Desk}
use ibkrquant.Execution.Plan.{Scan, nothing_planned}
use ibkrquant.Execution.Rebalance.{Args, Kit, Setup, resolve_equity}
use ibkrquant.Execution.Summaries.{final_status, settle_plan}
use ibkrquant.Execution.Targets.{Allocation}
use ibkrquant.Execution.Cycle.{
  Draft, trade, take_lock, lock_and_trade, conclude_plan, follow_draft, plan_and_trade, admitted,
  admit_and_plan, desk_for, with_equity, execute_rebalance,
}

-- A status in which the work is over: neither the first one nor the one of the submissions.
abbrev pub is_final : Status → Bool
is_final Status.not_started = false
is_final Status.executing = false
is_final _ = true

-- If the action returns, it returns with such a status.
record Ends {F S A : Type 0} (m : Action F S A) : Type 0 where
  holds :
      (run : Run F S) (a : A)
      → (m run).0 ≡ ok a
      → is_final (m run).1.summary.execution_status ≡ true

module _ {F S : Type 0} where
  next-Ends :
      {A B : Type 0} (r : Result A) {k : A → Action F S B} (run : Run F S) (b : B)
      → ((a : A) → Ends (k a))
      → (next r k run).0 ≡ ok b
      → is_final (next r k run).1.summary.execution_status ≡ true
  next-Ends (ok a) run b h e = (h a).holds run b e
  next-Ends (raise x) run b h e = cc

  bind-Ends :
      {A B : Type 0} (m : Action F S A) {k : A → Action F S B}
      → ((a : A) → Ends (k a))
      → Ends (m >>= k)
  unfolding ◌>>=◌
  bind-Ends m h = record { holds = λ run b e. next-Ends (m run).0 (m run).1 b h e }

  if-Ends :
      {A : Type 0} (b : Bool) {x y : Action F S A} → Ends x → Ends y → Ends (if b then x else y)
  if-Ends true hx hy = hx
  if-Ends false hx hy = hy

  update-Ends :
      (g : Summary F → Summary F)
      → ((s : Summary F) → is_final (g s).execution_status ≡ true)
      → Ends (update {S = S} g)
  unfolding update
  update-Ends g h = record { holds = λ run a e. h run.summary }

nothing_planned-final :
    (F : Type 0) (scan : Scan) → is_final (nothing_planned {F = F} scan).1 ≡ true
unfolding nothing_planned
nothing_planned-final F scan = ground arith

module _ {F : Type 0} ⦃f : Float F⦄ where
  final_status-final : (s : Summary F) → is_final (final_status s).execution_status ≡ true
  unfolding final_status
  final_status-final s = ground arith

  settle_plan-final :
      (a : Args F) (scan : Scan) (s : Summary F)
      → is_final (settle_plan a scan s).0.execution_status ≡ true
  unfolding settle_plan
  settle_plan-final a scan s = ground (arith, nothing_planned-final F scan)

module _ {F S : Type 0} ⦃f : Float F⦄ (a : Args F) (kit : Kit F) (desk : Desk F S) where
  trade-Ends : (u : Setup F) (anticipated sweep : F) → Ends (trade a kit desk u anticipated sweep)
  unfolding trade
  trade-Ends u anticipated sweep = bind-Ends _ λ _. bind-Ends _ λ v. bind-Ends _ λ power.
      bind-Ends _ λ _.
        bind-Ends _ λ reason. bind-Ends _ λ _. bind-Ends _ λ left. update-Ends _ final_status-final

  lock_and_trade-Ends :
      (mode : Text) (u : Setup F) (anticipated sweep : F)
      → Ends (lock_and_trade a kit desk mode u anticipated sweep)
  unfolding lock_and_trade take_lock
  lock_and_trade-Ends mode u anticipated sweep = bind-Ends _ λ filled.
      if-Ends (not (is_empty filled)) (update-Ends _ (λ s. refl)) (
        bind-Ends _ λ created. bind-Ends _ λ _.
          if-Ends created (trade-Ends u anticipated sweep)
            (bind-Ends _ λ held. update-Ends _ (λ s. refl)))

  concluded :
      (mode : Text) (u : Setup F) (anticipated sweep : F) (goes_on : Bool) (run : Run F S)
      → is_final run.summary.execution_status ≡ true
      → (r : Unit {0})
      → ((if goes_on then lock_and_trade a kit desk mode u anticipated sweep else pure tt) run).0
        ≡ ok r
      → is_final
          ((if goes_on then lock_and_trade a kit desk mode u anticipated sweep else pure tt)
            run).1.summary.execution_status
        ≡ true
  unfolding pure
  concluded mode u anticipated sweep true run h r e =
      (lock_and_trade-Ends mode u anticipated sweep).holds run r e
  concluded mode u anticipated sweep false run h r e = h

  follow_draft-Ends :
      (mode : Text) (u : Setup F) (anticipated : F) (d : Draft F)
      → Ends (follow_draft a kit desk mode u anticipated d)
  unfolding follow_draft conclude_plan ◌>>=◌
  follow_draft-Ends mode u anticipated d =
      if-Ends d.has_plan (lock_and_trade-Ends mode u anticipated d.sweep) (record {
        holds = λ run r e.
            concluded mode u anticipated d.sweep _ _ (settle_plan-final a d.scan run.summary) r e;
      })

  admit_and_plan-Ends : (mode : Text) (u : Setup F) → Ends (admit_and_plan a kit desk mode u)
  unfolding admit_and_plan plan_and_trade
  admit_and_plan-Ends mode u = bind-Ends _ λ _. bind-Ends _ λ pending.
      if-Ends (not (admitted a kit desk u)) (update-Ends _ (λ s. refl)) (
        if-Ends (not (is_empty pending)) (update-Ends _ (λ s. refl))
          (bind-Ends _ λ anticipated. follow_draft-Ends mode u anticipated _))

module _ {F S : Type 0} ⦃f : Float F⦄ (a : Args F) (kit : Kit F) (broker : Broker F S) where
  with_equity-Ends :
      (alloc : Allocation F) (mode : Text) (account : Option Text) (equity : Option F)
      → Ends (with_equity a kit broker alloc mode account equity)
  unfolding with_equity
  with_equity-Ends alloc mode account none = update-Ends _ (λ s. refl)
  with_equity-Ends alloc mode account (some equity) =
      bind-Ends _ λ u. admit_and_plan-Ends a kit (desk_for a kit broker account) mode u

  -- A run that returns leaves the summary in a final status: blocked, no_op, pending_reconciliation or
  -- executed, on every path of the function.
  pub execute_rebalance-final :
      (run : Run F S) (r : Unit {0})
      → (execute_rebalance a kit broker run).0 ≡ ok r
      → is_final (execute_rebalance a kit broker run).1.summary.execution_status ≡ true
  unfolding execute_rebalance
  execute_rebalance-final =
      (bind-Ends _ λ alloc. bind-Ends _ λ mode.
        bind-Ends _
          λ account. bind-Ends _ λ _. with_equity-Ends alloc mode account (resolve_equity a)).holds
