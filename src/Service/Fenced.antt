-- ===== src/Service/Fenced.antt =====
-- application/rebalance_service.py: what is true of a cycle that sends an order.
use ibkrquant.Prelude.{
  ◌≡◌, refl, ◌∙◌, ◌⊎◌, inl, inr, Bool, true, false, some, Text, is_blank_text, not, keys,
  if◌then◌else◌,
}
use ibkrquant.Number.{Float}
use ibkrquant.Execution.Types.{Result, ok, raise}
use ibkrquant.Execution.Run.{Run, Action, next, ◌>>=◌, lift, gets, on_session}
use ibkrquant.Service.Fence.{resolve_physical_account_id}
use ibkrquant.Service.Signal.{
  Signal, Snapshot, View, snapshot_to_portfolio_view, resolve_cycle_allocation,
}
use ibkrquant.Service.Claim.{Store, Config, Session, scope_of, build_marker_key, owner_of}
use ibkrquant.Service.Claim.Backed.{StoreKeeps, Granted}
use ibkrquant.Service.Cycle.{
  Runtime, with_broker, outside, finally_disconnect, claim_of, claimed_execution, trade_cycle,
  follow_signal, connected_cycle, run_strategy_core, args_of, fresh_claim, noop_cycle,
  recorded_cycle, execution_already_recorded,
}
use ibkrquant.Service.Whole.{noop-Keeps, recorded-Keeps, report-Keeps}
use ibkrquant.Service.Once.{Silent, store_of}
use ibkrquant.Service.First.{acquire-Claims, execution-First}
use ibkrquant.Service.AtMostOnce.{Sent, Sent-frame, claim_store_lem, record_execution_marker-Sent}

-- The sessions of a cycle: once connected, with the answer of the portfolio, and with that of the strategy.
module _ {F S T : Type 0} ⦃f : Float F⦄ (rt : Runtime F S) (run : Run F (Session S T)) where
  abbrev pub after_connect : S
  after_connect = (rt.connect_ib run.world.session.broker).1

  abbrev pub portfolio : Result (Snapshot F) × S
  portfolio = rt.get_portfolio_snapshot after_connect

  abbrev pub signals : Snapshot F → Result (Signal F) × S
  signals snapshot =
      rt.compute_signals (keys ((snapshot_to_portfolio_view snapshot).positions)) portfolio.1

-- A live cycle with a marker store and one physical account. The snapshot is the one that the portfolio
-- returned in this cycle and the signal the one that the strategy computed on it; the account is resolved
-- on the snapshot, and the store, as the cycle found it, allowed the owner and granted the marker.
pub record Fenced {F S T : Type 0} ⦃f : Float F⦄ (rt : Runtime F S) (c : Config T)
    (run : Run F (Session S T)) : Type 0 where
  pub snapshot : Snapshot F
  pub fetched : (portfolio rt run).0 ≡ ok snapshot
  pub sig : Signal F
  pub computed : (signals rt run snapshot).0 ≡ ok sig
  pub store : Store T
  pub account : Text
  pub is_live : c.dry_run_only ≡ false
  pub is_dedup : c.execution_dedup_enabled ≡ true
  pub is_configured : c.execution_state_store ≡ some store
  pub has_key : is_blank_text (build_marker_key c sig) ≡ false
  pub is_account :
      resolve_physical_account_id c.account_ids snapshot.account_ids (scope_of c) ≡ ok account
  pub is_granted : Granted store (build_marker_key c sig) (owner_of c sig) account (store_of run)

module _ {F S T : Type 0} ⦃f : Float F⦄ (rt : Runtime F S) (c : Config T) (G : Type 0) where
  keeps : (st : Store T) → c.execution_state_store ≡ some st → StoreKeeps st (λ _. G)
  keeps st e = record { on_owner = λ a o t p. p; on_claim = λ k t p. p; on_record = λ k t p. p }

  silent_outside : (s : S) (run : Run F (Session S T)) → Sent (λ _. G) run (with_broker s run)
  silent_outside s run = record { lasting = λ p. p; sends = inl refl }

  -- what is sent from a run on by an action
  abbrev Sends : {A : Type 0} → Run F (Session S T) → Result A × Run F (Session S T) → Type 0
  Sends run out = Silent run out.1 ⊎ G

  execution-Sends :
      (sig : Signal F) (snapshot : Snapshot F) (v : View F) (run : Run F (Session S T))
      → ((st : Store T) (a : Text)
          → c.dry_run_only ≡ false
          → c.execution_dedup_enabled ≡ true
          → is_blank_text (build_marker_key c sig) ≡ false
          → c.execution_state_store ≡ some st
          → resolve_physical_account_id c.account_ids snapshot.account_ids (scope_of c) ≡ ok a
          → Granted st (build_marker_key c sig) (owner_of c sig) a (store_of run)
          → G)
      → Sends run (claimed_execution rt c sig snapshot v run)
  unfolding claimed_execution on_session ◌>>=◌ claim_of
  execution-Sends sig snapshot v run grant =
      ((execution-First rt.broker (claim_of rt c sig snapshot) (args_of rt c sig v) (rt.kit_of sig)
            (acquire-Claims (store_of run) G (build_marker_key c sig) (owner_of c sig) _ c
              (λ st a e account g.
                let (live, dedup, key, configured) = claim_store_lem c _ st e in
                grant st a live dedup key configured account g))).holds
          (record run {
            world = record run.world { session = fresh_claim run.world.session };
          })).sends
        (λ e. refl, λ e. cc)

  then-Sends :
      {A B : Type 0} (run : Run F (Session S T)) (out : Result A × Run F (Session S T))
      (k : A → Action F (Session S T) B)
      → Sends run out
      → ((a : A) (s : Run F (Session S T)) → Sends s (k a s))
      → Sends run (next out.0 k out.1)
  then-Sends run (raise e, s) k h g = h
  then-Sends run (ok a, s) k (inl silent) g = elim (g a s) [
    | inl later ↦ inl (later ∙ silent)
    | inr p ↦ inr p
  ]
  then-Sends run (ok a, s) k (inr p) g = inr p

  if-Sends :
      {A : Type 0} (b : Bool) (x y : Action F (Session S T) A) (run : Run F (Session S T))
      → Sends run (x run)
      → Sends run (y run)
      → Sends run ((if b then x else y) run)
  if-Sends true x y run hx hy = hx
  if-Sends false x y run hx hy = hy

  lift-Sends :
      {A B : Type 0} (r : Result A) (k : A → Action F (Session S T) B) (run : Run F (Session S T))
      → ((a : A) → r ≡ ok a → Sends run (k a run))
      → Sends run (next r k run)
  lift-Sends (ok a) k run h = h a refl
  lift-Sends (raise e) k run h = inl refl

  follow-Sends :
      (snapshot : Snapshot F) (v : View F) (sig : Signal F) (run : Run F (Session S T))
      → ((w : View F) → Sends run (claimed_execution rt c sig snapshot w run))
      → Sends run (follow_signal rt c snapshot v sig run)
  unfolding follow_signal trade_cycle ◌>>=◌ lift gets
  follow-Sends snapshot v sig run traded =
      lift-Sends (resolve_cycle_allocation sig.allocation sig.has_targets) _ run λ alloc _.
        if-Sends (not sig.has_targets) (noop_cycle rt c sig) _ run
          ((noop-Keeps Sent-frame silent_outside rt c sig).holds run).sends
          (if-Sends (execution_already_recorded rt c sig (store_of run))
            (recorded_cycle rt c sig alloc.targets) _ run
            ((recorded-Keeps Sent-frame silent_outside rt c sig alloc.targets).holds run).sends
            (then-Sends run (claimed_execution rt c sig snapshot _ run) _ (traded _) (λ _ s.
              ((report-Keeps Sent-frame silent_outside rt c sig alloc.targets
                  (record_execution_marker-Sent rt c _ keeps sig)).holds
                s).sends)))

module _ {F S T : Type 0} ⦃f : Float F⦄ (rt : Runtime F S) (c : Config T) where
  -- A cycle sends no order, unless it is live with execution deduplication and a store, the account of the
  -- snapshot that it fetched is the one that the fence resolves, and the store, as the cycle found it,
  -- allowed the owner of the account and granted the marker of the signal that the cycle computed.
  pub run_strategy_core-Fenced :
      (run : Run F (Session S T)) → Silent run (run_strategy_core rt c run).1 ⊎ Fenced rt c run
  unfolding run_strategy_core connected_cycle finally_disconnect outside ◌>>=◌
  run_strategy_core-Fenced run =
      lift-Sends rt c (Fenced rt c run) (rt.connect_ib run.world.session.broker).0 _
        (with_broker (after_connect rt run) run)
        λ _ _.
          lift-Sends rt c (Fenced rt c run) (portfolio rt run).0 _
            (with_broker (portfolio rt run).1 run)
            λ snapshot fetched.
              lift-Sends rt c (Fenced rt c run) (signals rt run snapshot).0 _
                (with_broker (signals rt run snapshot).1 run)
                λ sig computed. follow-Sends rt c (Fenced rt c run) snapshot _ sig _ λ w.
                  execution-Sends rt c (Fenced rt c run) sig snapshot w _
                    λ st a live dedup key configured account g. record {
                      snapshot = snapshot;
                      fetched = fetched;
                      sig = sig;
                      computed = computed;
                      store = st;
                      account = a;
                      is_live = live;
                      is_dedup = dedup;
                      is_configured = configured;
                      has_key = key;
                      is_account = account;
                      is_granted = g;
                    }
