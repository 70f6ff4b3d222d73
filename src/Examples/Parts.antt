-- ===== src/Examples/Parts.antt =====
-- application/execution_service.py: the theorems on weights, account ids, modes and lock files, applied.
use ibkrquant.Prelude.{List, [], ◌∷◌, none, some, Text, codes, All, Dict}
use ibkrquant.Number.Fixed.{Fixed, fixed_float, dollars}
use ibkrquant.Execution.Guards.{LockScope, resolve_execution_lock_path}
use ibkrquant.Execution.Guards.Paths.{IsPlain, resolve_execution_lock_path-IsPlain}
use ibkrquant.Examples.Samples.{voo, xlk, percent}

abbrev boxx : Text
boxx = codes "BOXX"

-- 5% of 10000 dollars in the haven, below a threshold of 1000 dollars
abbrev weights : Dict Fixed
weights = (voo, percent 90) ∷ (boxx, percent 5) ∷ []

-- 150 dollars in a share of 200 dollars
abbrev small_targets : Dict Fixed
small_targets = (voo, dollars 900) ∷ (xlk, dollars 150) ∷ []

abbrev share_prices : Dict Fixed
share_prices = (voo, dollars 100) ∷ (xlk, dollars 200) ∷ []

abbrev given_ids : List Text
given_ids = codes " U1" ∷ codes "" ∷ codes "U2 " ∷ codes "U1" ∷ []

abbrev odd_scope : LockScope
odd_scope = record {
  account_group = some (codes "../group");
  service_name = none;
  strategy_profile = some (codes "a/b");
  execution_mode = codes "paper";
  trade_date = some (codes "2026-03-26");
  snapshot_date = none;
}

resolve_execution_lock_path-IsPlain_example : All IsPlain (resolve_execution_lock_path odd_scope)
resolve_execution_lock_path-IsPlain_example = resolve_execution_lock_path-IsPlain odd_scope
