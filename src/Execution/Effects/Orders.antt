-- ===== src/Execution/Effects/Orders.antt =====
-- application/execution_service.py: what a whole run hands to the broker.
use ibkrquant.Prelude.{
  ◌≡◌, ◌≢◌, refl, sym, ◌∙◌, ap, Bool, true, false, inl, inr, List, [], ◌∷◌, ◌++◌, Option, none,
  some, Text, All, All-append, Bool-cases, contains, not, is_empty,
}
use mathlib.Core.List.{append-nil, append_assoc}
use ibkrquant.Number.{Float}
use ibkrquant.Execution.Types.{Error, Result, Intent, ok, raise, Broker}
use ibkrquant.Execution.Run.{Run, submit_claimed_order, granted, acquired, delegate_submit}
use ibkrquant.Execution.Accounts.{normalize_account_ids, resolve_order_account_id}
use ibkrquant.Execution.Rebalance.{Args, Kit}
use ibkrquant.Execution.Cycle.{
  try_create_execution_lock, lock_and_trade, take_lock, execute_rebalance, desk_for,
}
use ibkrquant.Execution.Effects.{Keeps, Rule, bind-Keeps, if-Keeps, noted-Keeps, read-Keeps}
use ibkrquant.Execution.Effects.Phases.{trade-Keeps}
use ibkrquant.Execution.Effects.Whole.{execute_rebalance-Keeps}

-- A relation that the lock file does not matter to, kept by what reaches the broker.
module _ {F S : Type 0} ⦃f : Float F⦄ (a : Args F) (kit : Kit F) (broker : Broker F S)
    {R : Run F S → Run F S → Type 0} {Allowed : Intent F → Type 0}
    (rule : Rule R broker a.dry_run_only Allowed)
    (own : (i : Intent F)
      → resolve_order_account_id (normalize_account_ids a.account_ids) ≡ ok i.account_id
      → Allowed i)
    (on_lock : (run : Run F S) (l : ibkrquant.Prelude.Dict Text)
      → R run (record run { world = record run.world { locks = l } })) where
  lock-Keeps : (path hash : Text) → Keeps R (try_create_execution_lock path hash)
  unfolding try_create_execution_lock
  lock-Keeps path hash = record {
    holds = λ run. elim (Bool-cases (contains path run.world.locks)) [
      | inl held ↦ rw held (rule.frame.stay run)
      | inr free ↦ rw free (on_lock run _)
    ];
  }

  pub whole-Keeps : Keeps R (execute_rebalance a kit broker)
  unfolding lock_and_trade take_lock
  whole-Keeps =
      execute_rebalance-Keeps a kit broker rule.frame λ mode _ account e u anticipated sweep.
        bind-Keeps rule.frame (read-Keeps rule.frame _) λ filled.
          if-Keeps rule.frame (not (is_empty filled)) (λ _. noted-Keeps rule.frame _)
            λ _. bind-Keeps rule.frame (lock-Keeps _ _) λ created.
              bind-Keeps rule.frame (noted-Keeps rule.frame _) λ _.
                if-Keeps rule.frame created
                  (λ _.
                    trade-Keeps a kit (desk_for a kit broker account) rule
                      (λ i h. own i (e ∙ ap ok (sym h))) refl u anticipated sweep)
                  (λ _.
                    bind-Keeps rule.frame (read-Keeps rule.frame _)
                      (λ held. noted-Keeps rule.frame _))

-- The execution claim is missing, or is never granted.
abbrev pub NeverGrants : {S : Type 0} → Option (S → Result Bool × S) → Type 0
NeverGrants none = Unit
NeverGrants (some acquire) = (s : _) → (acquire s).0 ≢ ok true

module _ {F S : Type 0} where
  -- Nothing reached the broker: its session is as it was, and no order was sent.
  abbrev pub IsUntouched : Run F S → Run F S → Type 0
  IsUntouched r s = (s.world.session ≡ r.world.session) × (s.world.sent ≡ r.world.sent)

  IsUntouched-rule :
      (broker : Broker F S) (Allowed : Intent F → Type 0) → Rule IsUntouched broker true Allowed
  IsUntouched-rule broker Allowed = record {
    frame = record {
      stay = λ run. (refl, refl);
      chain = λ r s t p q. (q.0 ∙ p.0, q.1 ∙ p.1);
      on_summary = λ run s. (refl, refl);
    };
    on_settle = λ e. cc;
    on_submit = λ e i h run. cc;
  }

  abbrev pub SendsNothing : Run F S → Run F S → Type 0
  SendsNothing r s = s.world.sent ≡ r.world.sent

  granted_refused :
      (broker : Broker F S) (i : Intent F) (grant : Result Bool) (run : Run F S)
      → grant ≢ ok true
      → SendsNothing run (granted broker i grant run).1
  unfolding granted
  granted_refused broker i (ok true) run h = absurd (h refl)
  granted_refused broker i (ok false) run h = refl
  granted_refused broker i (raise e) run h = refl

  acquired_refused :
      (broker : Broker F S) (i : Intent F) (claim : Option (S → Result Bool × S)) (run : Run F S)
      → NeverGrants claim
      → SendsNothing run (acquired broker i claim run).1
  unfolding acquired
  acquired_refused broker i none run h = refl
  acquired_refused broker i (some acquire) run h =
      granted_refused broker i _ _ (h run.world.session)

  refusal_rule :
      (broker : Broker F S) (dry : Bool) (Allowed : Intent F → Type 0)
      → NeverGrants broker.claim
      → Rule SendsNothing broker dry Allowed
  unfolding submit_claimed_order
  refusal_rule broker dry Allowed never = record {
    frame = record { stay = λ run. refl; chain = λ r s t p q. q ∙ p; on_summary = λ run s. refl };
    on_settle = λ e run. refl;
    on_submit = λ e i h run. acquired_refused broker i broker.claim run never;
  }

-- The orders sent in between, of which each is allowed.
pub record Sends {F S : Type 0} (Allowed : Intent F → Type 0) (r s : Run F S) : Type 0 where
  pub orders : List (Intent F)
  pub sent : s.world.sent ≡ r.world.sent ++ orders
  pub allowed : All Allowed orders

module _ {F S : Type 0} {Allowed : Intent F → Type 0} where
  granted-Sends :
      (broker : Broker F S) (i : Intent F) (grant : Result Bool) (run : Run F S)
      → Allowed i
      → Sends Allowed run (granted broker i grant run).1
  unfolding granted delegate_submit
  granted-Sends broker i (ok true) run h = record {
    orders = i ∷ [];
    sent = refl;
    allowed = (h, tt);
  }
  granted-Sends broker i (ok false) run h = record {
    orders = [];
    sent = sym (append-nil _);
    allowed = tt;
  }
  granted-Sends broker i (raise e) run h = record {
    orders = [];
    sent = sym (append-nil _);
    allowed = tt;
  }

  acquired-Sends :
      (broker : Broker F S) (i : Intent F) (claim : Option (S → Result Bool × S)) (run : Run F S)
      → Allowed i
      → Sends Allowed run (acquired broker i claim run).1
  unfolding acquired
  acquired-Sends broker i none run h = record {
    orders = [];
    sent = sym (append-nil _);
    allowed = tt;
  }
  acquired-Sends broker i (some acquire) run h =
      let p = granted-Sends broker i _ _ h in
      record { orders = p.orders; sent = p.sent; allowed = p.allowed }

  Sends-rule : (broker : Broker F S) (dry : Bool) → Rule (Sends Allowed) broker dry Allowed
  unfolding submit_claimed_order
  Sends-rule broker dry = record {
    frame = record {
      stay = λ run. record { orders = []; sent = sym (append-nil _); allowed = tt };
      chain = λ r s t p q. record {
        orders = p.orders ++ q.orders;
        sent =
            q.sent ∙ ap (λ xs. xs ++ q.orders) p.sent ∙ append_assoc r.world.sent p.orders q.orders;
        allowed = All-append Allowed p.orders q.orders p.allowed q.allowed;
      };
      on_summary = λ run s. record { orders = []; sent = sym (append-nil _); allowed = tt };
    };
    on_settle = λ e run. record { orders = []; sent = sym (append-nil _); allowed = tt };
    on_submit = λ e i h run. acquired-Sends broker i broker.claim run h;
  }

module _ {F S : Type 0} ⦃f : Float F⦄ (a : Args F) (kit : Kit F) (broker : Broker F S) where
  -- A dry run leaves the broker's session as it was and sends no order, however it ends.
  pub execute_rebalance-dry_run :
      a.dry_run_only ≡ true
      → (run : Run F S) → IsUntouched run (execute_rebalance a kit broker run).1
  execute_rebalance-dry_run dry =
      (whole-Keeps a kit broker {R = IsUntouched} {Allowed = λ _. Unit}
        (rw dry (IsUntouched-rule broker _)) (λ i h. tt) (λ run l. (refl, refl))).holds

  -- When the execution claim is missing or never granted, a run sends no order.
  pub execute_rebalance-NeverGrants :
      NeverGrants broker.claim
      → (run : Run F S) → (execute_rebalance a kit broker run).1.world.sent ≡ run.world.sent
  execute_rebalance-NeverGrants never =
      (whole-Keeps a kit broker {R = SendsNothing} {Allowed = λ _. Unit}
        (refusal_rule broker a.dry_run_only _ never) (λ i h. tt) (λ run l. refl)).holds

  -- Every order that a run adds to those sent carries the one account that its arguments resolve to.
  pub execute_rebalance-Sends :
      (run : Run F S)
      → Sends
          (λ i. resolve_order_account_id (normalize_account_ids a.account_ids) ≡ ok i.account_id)
          run
          (execute_rebalance a kit broker run).1
  execute_rebalance-Sends =
      (whole-Keeps a kit broker (Sends-rule broker a.dry_run_only) (λ i h. h)
        (λ run l. record { orders = []; sent = sym (append-nil _); allowed = tt })).holds

  none_allowed :
      (e : Error)
      → resolve_order_account_id (normalize_account_ids a.account_ids) ≡ raise e
      → (is : List (Intent F))
      → All
          (λ i. resolve_order_account_id (normalize_account_ids a.account_ids) ≡ ok i.account_id)
          is
      → is ≡ []
  none_allowed e raises [] _ = refl
  none_allowed e raises (i ∷ is) h = (let clash = sym raises ∙ h.0 in cc)

  -- When the account ids of the arguments resolve to no single account, a run sends no order.
  pub execute_rebalance-several_accounts :
      (e : Error)
      → resolve_order_account_id (normalize_account_ids a.account_ids) ≡ raise e
      → (run : Run F S) → (execute_rebalance a kit broker run).1.world.sent ≡ run.world.sent
  execute_rebalance-several_accounts e raises run =
      let p = execute_rebalance-Sends run in
      p.sent
      ∙ ap (λ is. run.world.sent ++ is) (none_allowed e raises p.orders p.allowed)
      ∙ append-nil _
