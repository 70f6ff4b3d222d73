-- ===== src/Examples/Runs.antt =====
-- application/execution_service.py: the theorems on whole runs, applied to the account of the samples.
use ibkrquant.Prelude.{
  ◌≡◌, refl, true, false, ◌⊎◌, [], ◌∷◌, none, codes, text_eq, mem_text, contains, sorted,
}
use ibkrquant.Number.Fixed.{Fixed, fixed_float}
use ibkrquant.Execution.Types.{OpenOrder, ok}
use ibkrquant.Execution.Run.{Run, ◌>>=◌, pure, lift, gets, update}
use ibkrquant.Execution.Accounts.{resolve_order_account_id, normalize_account_ids, matches_account}
use ibkrquant.Execution.Guards.{
  resolve_execution_mode, resolve_execution_lock_path, sanitize_token, collect_pending_symbols,
}
use ibkrquant.Execution.Rebalance.{Args, resolve_equity, set_up}
use ibkrquant.Execution.Targets.{apply_safe_haven_cash_substitution, resolve_weight_allocation}
use ibkrquant.Number.{is_zero, max}
use ibkrquant.Execution.Cycle.{execute_rebalance, lock_path_of, with_equity, admit_and_plan}
use ibkrquant.Examples.Samples.{args, kit, broker, claimed, fresh}
use ibkrquant.Execution.Effects.Orders.{
  IsUntouched, Sends, execute_rebalance-dry_run, execute_rebalance-NeverGrants,
  execute_rebalance-Sends,
}
use ibkrquant.Execution.Effects.Locks.{execute_rebalance-locked, execute_rebalance-once}
use ibkrquant.Execution.Effects.Endings.{is_final, execute_rebalance-final}

execute_rebalance-dry_run_example :
    IsUntouched fresh (execute_rebalance (args true) kit (broker none []) fresh).1
execute_rebalance-dry_run_example =
    execute_rebalance-dry_run (args true) kit (broker none []) refl fresh

execute_rebalance-NeverGrants_example :
    (execute_rebalance (args false) kit (broker none []) fresh).1.world.sent ≡ fresh.world.sent
execute_rebalance-NeverGrants_example =
    execute_rebalance-NeverGrants (args false) kit (broker none []) tt fresh

execute_rebalance-Sends_example :
    Sends
      (λ i.
        resolve_order_account_id (normalize_account_ids (args false).account_ids) ≡ ok i.account_id)
      fresh
      (execute_rebalance (args false) kit (broker claimed []) fresh).1
execute_rebalance-Sends_example = execute_rebalance-Sends (args false) kit (broker claimed []) fresh

abbrev two_accounts : Args Fixed
two_accounts = record (args false) { account_ids = codes "U1" ∷ codes "U2" ∷ [] }

abbrev locked : Run Fixed (Unit {0})
locked = record fresh {
  world = record fresh.world {
    locks = (lock_path_of (args false) (codes "paper"), codes "hash") ∷ [];
  };
}

execute_rebalance-locked_example :
    (execute_rebalance (args false) kit (broker claimed []) locked).1.world.sent ≡ []
unfolding resolve_execution_mode lock_path_of text_eq mem_text contains resolve_execution_lock_path
    sanitize_token
execute_rebalance-locked_example =
    execute_rebalance-locked (args false) kit (broker claimed []) (codes "paper") refl locked refl

execute_rebalance-once_example :
    ((execute_rebalance (args false) kit (broker claimed []) fresh).1.world.sent ≡ [])
    ⊎ ((execute_rebalance
          (args false)
          kit
          (broker claimed [])
          (execute_rebalance (args false) kit (broker claimed []) fresh).1).1.world.sent
        ≡ (execute_rebalance (args false) kit (broker claimed []) fresh).1.world.sent)
unfolding resolve_execution_mode text_eq mem_text
execute_rebalance-once_example =
    execute_rebalance-once (args false) (args false) kit kit (broker claimed []) (broker claimed [])
      (codes "paper") (codes "paper") refl refl refl fresh

abbrev waiting : OpenOrder
waiting = record {
  symbol = codes "xlk";
  status = codes "Submitted";
  order_account = [];
  account = codes "U1";
}

execute_rebalance-final_example :
    is_final
      (execute_rebalance
        (args false)
        kit
        (broker claimed (waiting ∷ []))
        fresh).1.summary.execution_status
    ≡ true
unfolding execute_rebalance ◌>>=◌ pure lift gets update with_equity admit_and_plan
    resolve_weight_allocation resolve_execution_mode text_eq mem_text resolve_order_account_id
    resolve_equity collect_pending_symbols sorted set_up is_zero matches_account
    apply_safe_haven_cash_substitution max
execute_rebalance-final_example =
    execute_rebalance-final (args false) kit (broker claimed (waiting ∷ [])) fresh tt refl
