-- ===== src/Deadline/Restored.antt =====
-- application/runtime_deadline.py and main.py: what is left of a deadline, and deadlines in deadlines.
use ibkrquant.Prelude.{
  ℕ, ◌≡◌, refl, sym, ap, ◌∙◌, ◌<◌, Bool, true, false, ◌&&◌, List, Option, none, some, Text, ltb,
  inl, inr, Bool-cases, arith,
}
use mathlib.Core.Path.{subst}
use ibkrquant.Prelude.Int.{ℤ, pos_part}
use ibkrquant.Deadline.{
  Platform, Handler, Worker, Work, Ending, DryRunKit, can_arm, armed, disarmed, within,
  enforce_runtime_deadline, get_positive_int_env, persist_dry_run_report_with_grace,
  persist_and_show, persistence_ended, persistence_of, last, persist_last, dry_run_answered,
  dry_run_deadline_seconds, report_grace_seconds, handle_dry_run_with_deadline,
}

-- The timer does not run, and SIGALRM has a given handler.
pub Restored : {H S : Type 0} → Handler H → Worker H S → Type 0
Restored h w = (w.itimer_real ≡ 0) × (w.sigalrm ≡ h)

-- A platform on which a deadline can be armed.
unfoldable pub CanArm : Platform → Type 0
CanArm p = (p.in_main_thread && p.has_sigalrm && p.has_setitimer) ≡ true

get_positive_int_env-positive :
    (int : Text → Option ℤ) (raw : Option Text) (n : ℕ)
    → 0 < n
    → ltb 0 (pos_part (get_positive_int_env int raw n)) ≡ true
unfolding get_positive_int_env
get_positive_int_env-positive int none n h = ground arith
get_positive_int_env-positive int (some raw) n h = elim (int raw) [
  | none ↦ ground arith
  | some m ↦ elim (Bool-cases (ltb 0 (pos_part m))) [ inl e ↦ ground arith | inr e ↦ ground arith ]
]

module _ {H S B : Type 0} (p : Platform) (seconds : ℤ) (operation : Text) (body : Work H S B) where
  -- Where the timer runs, the block runs as it is.
  enforce_runtime_deadline-running :
      (w : Worker H S)
      → ltb 0 w.itimer_real ≡ true
      → enforce_runtime_deadline p seconds operation body w ≡ body w
  unfolding enforce_runtime_deadline
  enforce_runtime_deadline-running w h = elim (Bool-cases (can_arm p seconds)) [
    | inl e ↦ rw (e, h) refl
    | inr e ↦ rw (e) refl
  ]

  -- Where no deadline can be armed, the block runs as it is.
  enforce_runtime_deadline-unarmed :
      (w : Worker H S)
      → can_arm p seconds ≡ false
      → enforce_runtime_deadline p seconds operation body w ≡ body w
  unfolding enforce_runtime_deadline
  enforce_runtime_deadline-unarmed w h = rw (h) refl

  -- Where a deadline can be armed and no timer runs, the block runs within the deadline.
  enforce_runtime_deadline-within :
      (w : Worker H S)
      → can_arm p seconds ≡ true
      → ltb 0 w.itimer_real ≡ false
      → enforce_runtime_deadline p seconds operation body w ≡ within seconds operation body w
  unfolding enforce_runtime_deadline
  enforce_runtime_deadline-within w h h' = rw (h, h') refl

can_arm-positive :
    (p : Platform) (seconds : ℤ)
    → CanArm p
    → ltb 0 (pos_part seconds) ≡ true
    → can_arm p seconds ≡ true
unfolding can_arm CanArm
can_arm-positive p seconds h h' = ground arith

can_arm-none :
    (p : Platform) (s t : ℤ) → ltb 0 (pos_part s) ≡ true → can_arm p s ≡ false → can_arm p t ≡ false
unfolding can_arm
can_arm-none p s t h h' = ground arith

armed-runs :
    {H S : Type 0} (seconds : ℤ) (operation : Text) (w : Worker H S)
    → ltb 0 (pos_part seconds) ≡ true
    → ltb 0 (armed seconds operation w).itimer_real ≡ true
unfolding armed
armed-runs seconds operation w h = ground arith

disarmed-Restored : {H S : Type 0} (h : Handler H) (w : Worker H S) → Restored h (disarmed h w)
unfolding disarmed Restored
disarmed-Restored h w = (refl, refl)

-- Where no timer runs, an armed block leaves none and the handler that it found, whatever its body
-- does.
enforce_runtime_deadline-Restored :
    {H S B : Type 0} (p : Platform) (seconds : ℤ) (operation : Text) (body : Work H S B)
    (h : Handler H) (w : Worker H S)
    → CanArm p
    → ltb 0 (pos_part seconds) ≡ true
    → Restored h w
    → Restored h (enforce_runtime_deadline p seconds operation body w).1
unfolding Restored
enforce_runtime_deadline-Restored p seconds operation body h w arms positive restored =
    let stopped : ltb 0 w.itimer_real ≡ false = ground arith in
    let as_within =
      enforce_runtime_deadline-within p seconds operation body w
        (can_arm-positive p seconds arms positive) stopped in
    let left = disarmed-Restored w.sigalrm (body (armed seconds operation w)).1 in
    subst (λ r. Restored h r.1) (sym as_within)
      (subst (λ k. Restored k (within seconds operation body w).1) restored.1 left)

-- A deadline within the block of another changes nothing, for every worker: where the outer one is
-- positive, the block with an inner deadline of any seconds and name is the block without it.
pub enforce_runtime_deadline-nested :
    {H S B : Type 0} (p : Platform) (outer inner : ℤ) (name other : Text) (body : Work H S B)
    (w : Worker H S)
    → 0 < pos_part outer
    → enforce_runtime_deadline p outer name (enforce_runtime_deadline p inner other body) w
      ≡ enforce_runtime_deadline p outer name body w
enforce_runtime_deadline-nested p outer inner name other body w positive =
    let positive' : ltb 0 (pos_part outer) ≡ true = ground arith in
    let block = enforce_runtime_deadline p inner other body in
    elim (Bool-cases (ltb 0 w.itimer_real)) [
      | inl runs ↦
          enforce_runtime_deadline-running p outer name block w runs
          ∙ enforce_runtime_deadline-running p inner other body w runs
          ∙ sym (enforce_runtime_deadline-running p outer name body w runs)
      | inr stopped ↦ elim (Bool-cases (can_arm p outer)) [
        | inl arms ↦
            let ran =
              enforce_runtime_deadline-running p inner other body (armed outer name w)
                (armed-runs outer name w positive') in
            enforce_runtime_deadline-within p outer name block w arms stopped
            ∙ ap (λ r. (r.0, disarmed w.sigalrm r.1)) ran
            ∙ sym (enforce_runtime_deadline-within p outer name body w arms stopped)
        | inr unarmed ↦
            enforce_runtime_deadline-unarmed p outer name block w unarmed
            ∙ enforce_runtime_deadline-unarmed p inner other body w
                (can_arm-none p outer inner positive' unarmed)
            ∙ sym (enforce_runtime_deadline-unarmed p outer name body w unarmed)
      ]
    ]

module _ {H S R : Type 0} (kit : DryRunKit H S R) (h : Handler H) where
  persistence_ended-Restored :
      (e : Ending Text) (w : Worker H S) → Restored h w → Restored h (persistence_ended kit e w)
  unfolding Restored
  persistence_ended-Restored (Ending.finished path) w r = r
  persistence_ended-Restored Ending.failed w r = r
  persistence_ended-Restored (Ending.expired o s) w r = r

  persist_last-Restored :
      (report : Option R) (late : Bool) (w : Worker H S)
      → CanArm kit.platform
      → Restored h w
      → Restored h (persist_last kit report late w)
  persist_last-Restored none late w arms r = r
  persist_last-Restored (some report) late w arms r = persistence_ended-Restored _ _ (
      enforce_runtime_deadline-Restored kit.platform (report_grace_seconds kit)
        (persistence_of late) (persist_and_show kit report) h w arms
        (get_positive_int_env-positive kit.int kit.grace_env 5 (ground arith)) r)

  persist_dry_run_report_with_grace-Restored :
      (reports : List R) (late : Bool) (w : Worker H S)
      → CanArm kit.platform
      → Restored h w
      → Restored h (persist_dry_run_report_with_grace kit reports late w)
  unfolding persist_dry_run_report_with_grace
  persist_dry_run_report_with_grace-Restored reports late w arms r =
      persist_last-Restored (last reports) late w arms r

  dry_run_answered-Restored :
      (recycle : Bool) (e : Ending (Text × ℕ)) (reports : List R) (w : Worker H S)
      → CanArm kit.platform
      → Restored h w
      → Restored h (dry_run_answered kit recycle e reports w).1
  unfolding Restored
  dry_run_answered-Restored recycle (Ending.finished a) reports w arms r =
      persist_dry_run_report_with_grace-Restored reports false w arms r
  dry_run_answered-Restored recycle Ending.failed reports w arms r = r
  dry_run_answered-Restored recycle (Ending.expired o s) reports w arms r =
      persist_dry_run_report_with_grace-Restored reports true w arms r

-- Whatever the environment's deadlines are, and whatever the request and the writing of its report do
-- and however they end, a dry run that starts on a platform which can arm a deadline, while no timer
-- runs, leaves no timer and the handler of SIGALRM that it found.
pub handle_dry_run_with_deadline-Restored :
    {H S R : Type 0} (kit : DryRunKit H S R) (recycle : Bool) (w : Worker H S)
    → CanArm kit.platform
    → w.itimer_real ≡ 0
    → Restored w.sigalrm (handle_dry_run_with_deadline kit recycle w).1
unfolding handle_dry_run_with_deadline Restored
handle_dry_run_with_deadline-Restored kit recycle w arms stopped =
    dry_run_answered-Restored kit w.sigalrm recycle _ _ _ arms (
      enforce_runtime_deadline-Restored kit.platform (dry_run_deadline_seconds kit) _ kit.route
        w.sigalrm w arms (get_positive_int_env-positive kit.int kit.deadline_env 105 (ground arith))
        (stopped, refl))
