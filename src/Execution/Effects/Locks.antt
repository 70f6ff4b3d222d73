-- ===== src/Execution/Effects/Locks.antt =====
-- application/execution_service.py: what the lock file of a day holds back.
use ibkrquant.Prelude.{
  ◌≡◌, refl, sym, ◌∙◌, ap, Bool, true, false, ◌⊎◌, inl, inr, Option, none, some, Text, Bool-cases,
  contains, insert, lookup, lookup-insert, text_eq_refl, if◌then◌else◌, not, is_empty,
}
use ibkrquant.Number.{Float}
use ibkrquant.Execution.Types.{Intent, Result, ok, raise, Broker}
use ibkrquant.Execution.Run.{
  Run, gets, update, ◌>>=◌, submit_claimed_order, acquired, granted, delegate_submit,
}
use ibkrquant.Execution.Guards.{resolve_execution_mode}
use ibkrquant.Execution.Orders.{Desk}
use ibkrquant.Execution.Rebalance.{Args, Kit, Setup}
use ibkrquant.Execution.Cycle.{
  lock_path_of, try_create_execution_lock, take_lock, lock_and_trade, execute_rebalance, desk_for,
}
use ibkrquant.Execution.Effects.{Keeps, Frame, Rule, if-Keeps, bind-Keeps, noted-Keeps, read-Keeps}
use ibkrquant.Execution.Effects.Phases.{trade-Keeps}
use ibkrquant.Execution.Effects.Whole.{execute_rebalance-Keeps}

module _ {F S : Type 0} where
  abbrev pub IsHeld : Text → Run F S → Type 0
  IsHeld path run = contains path run.world.locks ≡ true

  abbrev SameLocks : Run F S → Run F S → Type 0
  SameLocks r s = s.world.locks ≡ r.world.locks

  granted_locks :
      (broker : Broker F S) (i : Intent F) (grant : Result Bool) (run : Run F S)
      → SameLocks run (granted broker i grant run).1
  unfolding granted delegate_submit
  granted_locks broker i (ok true) run = refl
  granted_locks broker i (ok false) run = refl
  granted_locks broker i (raise e) run = refl

  acquired_locks :
      (broker : Broker F S) (i : Intent F) (claim : Option (S → Result Bool × S)) (run : Run F S)
      → SameLocks run (acquired broker i claim run).1
  unfolding acquired
  acquired_locks broker i none run = refl
  acquired_locks broker i (some acquire) run = granted_locks broker i _ _

  locks_rule : (broker : Broker F S) (dry : Bool) → Rule SameLocks broker dry (λ _. Unit)
  unfolding submit_claimed_order
  locks_rule broker dry = record {
    frame = record { stay = λ run. refl; chain = λ r s t p q. q ∙ p; on_summary = λ run s. refl };
    on_settle = λ e run. refl;
    on_submit = λ e i h run. acquired_locks broker i broker.claim run;
  }

  -- A lock that is held stays held, and whatever was sent was sent with the lock held at the end; with
  -- the lock held from the start nothing was.
  pub record Locked (path : Text) (r s : Run F S) : Type 0 where
    pub held : IsHeld path r → IsHeld path s
    pub idle : IsHeld path r → s.world.sent ≡ r.world.sent
    pub guarded : (s.world.sent ≡ r.world.sent) ⊎ IsHeld path s

  Locked-frame : (path : Text) → Frame (Locked path)
  Locked-frame path = record {
    stay = λ run. record { held = λ h. h; idle = λ h. refl; guarded = inl refl };
    chain = λ r s t p q. record {
      held = λ h. q.held (p.held h);
      idle = λ h. q.idle (p.held h) ∙ p.idle h;
      guarded = elim q.guarded [
        | inr h ↦ inr h
        | inl e ↦ elim p.guarded [ inr h ↦ inr (q.held h) | inl e' ↦ inl (e ∙ e') ]
      ];
    };
    on_summary = λ run s. record { held = λ h. h; idle = λ h. refl; guarded = inl refl };
  }

held-insert :
    (path v : Text) (d : ibkrquant.Prelude.Dict Text) → contains path (insert path v d) ≡ true
unfolding contains
held-insert path v d = rw (lookup-insert path path v d, text_eq_refl path) refl

module _ {F S : Type 0} ⦃f : Float F⦄ (a : Args F) (kit : Kit F) (desk : Desk F S) (mode : Text)
    (same : a.dry_run_only ≡ desk.dry_run_only) where
  take_lock-held :
      (u : Setup F) (anticipated sweep : F) (run : Run F S)
      → IsHeld (lock_path_of a mode) run
      → (take_lock a kit desk mode u anticipated sweep run).1.world ≡ run.world
  unfolding take_lock try_create_execution_lock ◌>>=◌ update gets
  take_lock-held u anticipated sweep run held = rw held refl

  take_lock-free :
      (u : Setup F) (anticipated sweep : F) (run : Run F S)
      → contains (lock_path_of a mode) run.world.locks ≡ false
      → IsHeld (lock_path_of a mode) (take_lock a kit desk mode u anticipated sweep run).1
  unfolding take_lock try_create_execution_lock ◌>>=◌ update
  take_lock-free u anticipated sweep run free = rw free (
      ap (contains (lock_path_of a mode)) (
        (trade-Keeps a kit desk (locks_rule desk.broker desk.dry_run_only) (λ i h. tt) same u
            anticipated sweep).holds
          _)
      ∙ held-insert _ _ _)

  take_lock-Locked :
      (u : Setup F) (anticipated sweep : F)
      → Keeps (Locked (lock_path_of a mode)) (take_lock a kit desk mode u anticipated sweep)
  take_lock-Locked u anticipated sweep = record {
    holds = λ run. elim (Bool-cases (contains (lock_path_of a mode) run.world.locks)) [
      | inl held ↦
          let e = take_lock-held u anticipated sweep run held in
          record {
            held = λ h. ap (λ w. contains (lock_path_of a mode) w.locks) e ∙ h;
            idle = λ h. ap (λ w. w.sent) e;
            guarded = inl (ap (λ w. w.sent) e);
          }
      | inr free ↦ record {
        held = λ h. take_lock-free u anticipated sweep run free;
        idle = λ h. cc;
        guarded = inr (take_lock-free u anticipated sweep run free);
      }
    ];
  }

  lock_and_trade-Locked :
      (u : Setup F) (anticipated sweep : F)
      → Keeps (Locked (lock_path_of a mode)) (lock_and_trade a kit desk mode u anticipated sweep)
  unfolding lock_and_trade
  lock_and_trade-Locked u anticipated sweep =
      bind-Keeps (Locked-frame _) (read-Keeps (Locked-frame _) _) λ filled.
        if-Keeps (Locked-frame _) (not (is_empty filled)) (λ _. noted-Keeps (Locked-frame _) _)
          (λ _. take_lock-Locked u anticipated sweep)

module _ {F S : Type 0} ⦃f : Float F⦄ (a : Args F) (kit : Kit F) (broker : Broker F S) (mode : Text)
    (resolved : resolve_execution_mode a.dry_run_only a.execution_mode ≡ ok mode) where
  execute_rebalance-Locked : Keeps (Locked (lock_path_of a mode)) (execute_rebalance a kit broker)
  execute_rebalance-Locked =
      execute_rebalance-Keeps a kit broker (Locked-frame _) λ m e account _ u anticipated sweep.
        let same : m ≡ mode = cc in
        rw (← same)
          (lock_and_trade-Locked a kit (desk_for a kit broker account) m refl u anticipated sweep)

  -- While the lock file of a run's arguments exists, the run sends no order.
  pub execute_rebalance-locked :
      (run : Run F S)
      → IsHeld (lock_path_of a mode) run
      → (execute_rebalance a kit broker run).1.world.sent ≡ run.world.sent
  execute_rebalance-locked run held = (execute_rebalance-Locked.holds run).idle held

module _ {F S : Type 0} ⦃f : Float F⦄ where
  -- Two runs, one after the other, whose modes resolve and whose arguments name one lock file (the rest of the arguments, the
  -- prices and the broker may differ): if the first sent an order, the second sends none.
  pub execute_rebalance-once :
      (a b : Args F) (kit kit' : Kit F) (broker broker' : Broker F S) (mode mode' : Text)
      → resolve_execution_mode a.dry_run_only a.execution_mode ≡ ok mode
      → resolve_execution_mode b.dry_run_only b.execution_mode ≡ ok mode'
      → lock_path_of a mode ≡ lock_path_of b mode'
      → (run : Run F S)
      → let first = (execute_rebalance a kit broker run).1 in
        (first.world.sent ≡ run.world.sent)
        ⊎ ((execute_rebalance b kit' broker' first).1.world.sent ≡ first.world.sent)
  execute_rebalance-once a b kit kit' broker broker' mode mode' ha hb path run =
      elim ((execute_rebalance-Locked a kit broker mode ha).holds run).guarded [
        | inl e ↦ inl e
        | inr held ↦ inr (execute_rebalance-locked b kit' broker' mode' hb _ (rw (← path) held))
      ]
