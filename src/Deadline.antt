-- ===== src/Deadline.antt =====
-- application/runtime_deadline.py: the deadline of a block of work, and main.py: the dry run under it.
pub mod Restored
use ibkrquant.Prelude.{
  ℕ, ◌*◌, Bool, true, false, ◌&&◌, not, List, [], ◌∷◌, Option, none, some, Text, codes, ltb, ◌==◌,
  if◌then◌else◌,
}
use ibkrquant.Prelude.Int.{ℤ, pos, pos_part}

-- What the worker's process offers: the thread is its main one, `signal.SIGALRM`, `signal.setitimer`.
pub record Platform : Type 0 where
  pub in_main_thread : Bool
  pub has_sigalrm : Bool
  pub has_setitimer : Bool

-- The handler of SIGALRM: a foreign one, or `_raise_deadline` of an operation and its seconds.
pub data Handler (H : Type 0) : Type 0 where
  foreign : H → Handler H
  raise_deadline : Text → ℤ → Handler H

-- `ITIMER_REAL` in microseconds, where 0 means that it does not run, the handler, and all else.
pub record Worker (H S : Type 0) : Type 0 where
  pub itimer_real : ℕ
  pub sigalrm : Handler H
  pub rest : S

abbrev pub Work : (H S B : Type 0) → Type 0
Work H S B = Worker H S → B × Worker H S

unfoldable pub can_arm : Platform → ℤ → Bool
can_arm p seconds = ltb 0 (pos_part seconds) && p.in_main_thread && p.has_sigalrm && p.has_setitimer

unfoldable pub armed : {H S : Type 0} → ℤ → Text → Worker H S → Worker H S
armed seconds operation w = record w {
  itimer_real = pos_part seconds * 1000000;
  sigalrm = raise_deadline operation seconds;
}

-- the `finally` clause
unfoldable pub disarmed : {H S : Type 0} → Handler H → Worker H S → Worker H S
disarmed previous w = record w { itimer_real = 0; sigalrm = previous }

abbrev pub within : {H S B : Type 0} → ℤ → Text → Work H S B → Work H S B
within seconds operation body w =
    let r = body (armed seconds operation w) in (r.0, disarmed w.sigalrm r.1)

-- `with enforce_runtime_deadline(seconds, operation=operation): body`, where the result of a body
-- is how it ends, with a value or with what it raises
unfoldable pub enforce_runtime_deadline :
    {H S B : Type 0} → Platform → ℤ → Text → Work H S B → Work H S B
enforce_runtime_deadline p seconds operation body w =
    if not (can_arm p seconds)
    then body w
    else if ltb 0 w.itimer_real
    then body w
    else within seconds operation body w

-- What the thread does: it sleeps for microseconds and sends SIGTERM to the process.
pub record Recycle : Type 0 where
  pub sleep : ℕ
  pub target_pid : ℕ

unfoldable pub recycle_current_process_after_response : ℤ → Option ℕ → ℕ → Recycle
recycle_current_process_after_response delay none pid = record {
  sleep = pos_part delay;
  target_pid = pid;
}
recycle_current_process_after_response delay (some n) pid = record {
  sleep = pos_part delay;
  target_pid = if n == 0 then pid else n;
}

-- How a block ends: with a value, with an `Exception`, or with `RuntimeDeadlineExceeded`.
pub data Ending (A : Type 0) : Type 0 where
  finished : A → Ending A
  failed : Ending A
  expired : Text → ℤ → Ending A

-- the lines that are printed
pub data Line : Type 0 where
  execution_report : Text → Line
  persistence_timed_out : Text → ℤ → Line
  persistence_failed : Line
  strategy_cycle_deadline_exceeded : Text → ℤ → ℤ → Bool → Line

-- `get_positive_int_env`, with the variable's value if there is one, and the parsing as a parameter
unfoldable pub get_positive_int_env : (Text → Option ℤ) → Option Text → ℕ → ℤ
get_positive_int_env int none default = pos default
get_positive_int_env int (some raw) default = elim (int raw) [
  | none ↦ pos default
  | some n ↦ if ltb 0 (pos_part n) then n else pos default
]

-- What the dry run calls: `_route_with_runtime_error_fallback` on `_handle_request`, which adds to the
-- reports whatever way it ends, `persist_execution_report`, the output, `int` and the environment.
pub record DryRunKit (H S R : Type 0) : Type 0 where
  pub platform : Platform
  pub route : Work H S (Ending (Text × ℕ) × List R)
  pub persist : R → Work H S (Ending Text)
  pub print : Line → S → S
  pub int : Text → Option ℤ
  pub deadline_env : Option Text
  pub grace_env : Option Text
  pub pid : ℕ

abbrev pub dry_run_deadline_seconds : {H S R : Type 0} → DryRunKit H S R → ℤ
dry_run_deadline_seconds kit = get_positive_int_env kit.int kit.deadline_env 105

abbrev pub report_grace_seconds : {H S R : Type 0} → DryRunKit H S R → ℤ
report_grace_seconds kit = get_positive_int_env kit.int kit.grace_env 5

abbrev pub shown : {H S R : Type 0} → DryRunKit H S R → Line → Worker H S → Worker H S
shown kit line w = record w { rest = kit.print line w.rest }

abbrev pub last : {R : Type 0} → List R → Option R
last [] = none
last (r ∷ []) = some r
last (r ∷ s ∷ rest) = last (s ∷ rest)

-- `print(f"execution_report {report_path}")` of a report that is persisted
abbrev pub persisted : {H S R : Type 0} → DryRunKit H S R → Ending Text → Work H S (Ending Text)
persisted kit (finished path) w = (finished path, shown kit (execution_report path) w)
persisted kit failed w = (failed, w)
persisted kit (expired o s) w = (expired o s, w)

-- the block under the grace
unfoldable pub persist_and_show : {H S R : Type 0} → DryRunKit H S R → R → Work H S (Ending Text)
persist_and_show kit report w = let r = kit.persist report w in persisted kit r.0 r.1

-- the clauses `except`
abbrev pub persistence_ended :
    {H S R : Type 0} → DryRunKit H S R → Ending Text → Worker H S → Worker H S
persistence_ended kit (finished path) w = w
persistence_ended kit failed w = shown kit persistence_failed w
persistence_ended kit (expired o s) w = shown kit (persistence_timed_out o s) w

abbrev pub persistence_of : Bool → Text
persistence_of true = codes "IBKR timeout report persistence"
persistence_of false = codes "IBKR dry-run report persistence"

-- the rest of it, on `reports[-1]` if there is one
abbrev pub persist_last :
    {H S R : Type 0} → DryRunKit H S R → Option R → Bool → Worker H S → Worker H S
persist_last kit none timeout_context w = w
persist_last kit (some report) timeout_context w =
    let r =
      enforce_runtime_deadline kit.platform (report_grace_seconds kit)
        (persistence_of timeout_context) (persist_and_show kit report) w in
    persistence_ended kit r.0 r.1

unfoldable pub persist_dry_run_report_with_grace :
    {H S R : Type 0} → DryRunKit H S R → List R → Bool → Worker H S → Worker H S
persist_dry_run_report_with_grace kit reports timeout_context w =
    persist_last kit (last reports) timeout_context w

-- The response or the exception that goes on, what `timeout_state` gets where it is given, and the
-- recycling that is started.
pub record DryRun : Type 0 where
  pub answer : Ending (Text × ℕ)
  pub worker_recycle_required : Bool
  pub recycled : Option Recycle

abbrev pub dry_run_answered :
    {H S R : Type 0} → DryRunKit H S R → Bool → Ending (Text × ℕ) → List R → Work H S DryRun
dry_run_answered kit recycle (finished response) reports w = (
  record { answer = finished response; worker_recycle_required = false; recycled = none },
  persist_dry_run_report_with_grace kit reports false w,
)
dry_run_answered kit recycle failed reports w =
    (record { answer = failed; worker_recycle_required = false; recycled = none }, w)
dry_run_answered kit recycle (expired o s) reports w = (
  record {
    answer = finished (codes "Error", 503);
    worker_recycle_required = true;
    recycled =
        if recycle
        then some (recycle_current_process_after_response (pos 1000000) none kit.pid)
        else none;
  },
  shown kit (strategy_cycle_deadline_exceeded o s (dry_run_deadline_seconds kit) recycle)
      (persist_dry_run_report_with_grace kit reports true w),
)

unfoldable pub handle_dry_run_with_deadline :
    {H S R : Type 0} → DryRunKit H S R → Bool → Work H S DryRun
handle_dry_run_with_deadline kit recycle w =
    let r =
      enforce_runtime_deadline kit.platform (dry_run_deadline_seconds kit)
        (codes "IBKR strategy dry-run request") kit.route w in
    dry_run_answered kit recycle r.0.0 r.0.1 r.1
