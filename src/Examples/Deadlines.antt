-- ===== src/Examples/Deadlines.antt =====
-- A dry run that its deadline ends, with a body that leaves the timer and the handler changed.
use ibkrquant.Prelude.{ℕ, ◌≡◌, refl, true, List, [], ◌∷◌, Option, none, some, Text, codes, arith}
use ibkrquant.Prelude.Int.{ℤ, pos}
use ibkrquant.Deadline.{
  Platform, Handler, Worker, Work, Ending, DryRunKit, Line, DryRun, enforce_runtime_deadline,
  handle_dry_run_with_deadline, raise_deadline, foreign, expired, finished,
  strategy_cycle_deadline_exceeded, execution_report,
}
use ibkrquant.Deadline.Restored.{
  Restored, CanArm, enforce_runtime_deadline-nested, handle_dry_run_with_deadline-Restored,
}

abbrev posix : Platform
posix = record { in_main_thread = true; has_sigalrm = true; has_setitimer = true }

abbrev idle : Worker ℕ (List Line)
idle = record { itimer_real = 0; sigalrm = foreign 7; rest = [] }

-- A body that takes the handler away and starts a timer of its own.
abbrev meddle : {B : Type 0} → B → Work ℕ (List Line) B
meddle b w = (b, record w { itimer_real = 3; sigalrm = foreign 9 })

-- `int` on the two values that are used
abbrev int_of : Text → Option ℤ
int_of [] = none
int_of (c ∷ rest) = some (pos 2)

abbrev kit : DryRunKit ℕ (List Line) ℕ
kit = record {
  platform = posix;
  route = meddle (expired (codes "IBKR strategy dry-run request") (pos 2), 4 ∷ 5 ∷ []);
  persist = λ r. meddle (finished (codes "report.json"));
  print = λ l rest. l ∷ rest;
  int = int_of;
  deadline_env = some (codes "2");
  grace_env = none;
  pid = 12;
}

-- The report is written before the line about the deadline, and the timer is off.
run_expired : (handle_dry_run_with_deadline kit true idle).1 ≡ record {
  itimer_real = 0;
  sigalrm = foreign 7;
  rest =
      strategy_cycle_deadline_exceeded (codes "IBKR strategy dry-run request") (pos 2) (pos 2) true
      ∷ execution_report (codes "report.json")
      ∷ [];
}
unfolding handle_dry_run_with_deadline enforce_runtime_deadline ibkrquant.Deadline.can_arm
    ibkrquant.Deadline.get_positive_int_env ibkrquant.Deadline.persist_dry_run_report_with_grace
    ibkrquant.Deadline.disarmed ibkrquant.Deadline.persist_and_show ibkrquant.Deadline.armed
run_expired = refl

handle_dry_run_with_deadline-Restored_example :
    Restored (foreign 7) ((handle_dry_run_with_deadline kit true idle).1)
unfolding CanArm
handle_dry_run_with_deadline-Restored_example =
    handle_dry_run_with_deadline-Restored kit true idle refl refl

enforce_runtime_deadline-nested_example :
    enforce_runtime_deadline posix
      (pos 105)
      (codes "outer")
      (enforce_runtime_deadline {B = ℕ} posix (pos 5) (codes "inner") (meddle 1))
      idle
    ≡ enforce_runtime_deadline {B = ℕ} posix (pos 105) (codes "outer") (meddle 1) idle
enforce_runtime_deadline-nested_example =
    enforce_runtime_deadline-nested posix (pos 105) (pos 5) (codes "outer") (codes "inner")
      (meddle 1) idle (ground arith)
