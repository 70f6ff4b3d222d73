-- ===== src/Service/Marks.antt =====
-- application/rebalance_service.py: the marker that a cycle leaves when it is to be recorded.
use ibkrquant.Prelude.{
  ◌≡◌, refl, sym, Bool, true, false, not, Option, some, Text, Dict, is_blank_text, if◌then◌else◌,
}
use mathlib.Core.Path.{subst}
use ibkrquant.Number.{Float}
use ibkrquant.Execution.Types.{Result, ok, raise, Summary}
use ibkrquant.Execution.Run.{Run, Action, next, pure, ◌>>=◌, gets, on_session}
use ibkrquant.Service.Signal.{Signal, Snapshot, View, should_record_execution_marker}
use ibkrquant.Service.Claim.{Store, Config, Session, build_marker_key}
use ibkrquant.Service.Cycle.{
  CycleResult, finished, Runtime, Event, outside, finally_disconnect, connected_cycle, emit_event,
  follow_signal, trade_cycle, report_cycle, noop_cycle, recorded_cycle, record_execution_marker,
  run_strategy_core, mark,
}
use ibkrquant.Service.Once.{Silent, store_of}
use ibkrquant.Service.Recorded.{run_strategy_core-recorded}
use ibkrquant.Service.AtMostOnce.{HasKey}

-- If the action returns from a run with `Pre`, what it returns and the run after it have `Post`.
pub record Returns {F S A : Type 0} (Pre : Run F S → Type 0) (m : Action F S A)
    (Post : A → Run F S → Type 0) : Type 0 where
  pub holds : (run : Run F S) → Pre run → (a : A) → (m run).0 ≡ ok a → Post a (m run).1

module _ {F S : Type 0} where
  next-Returns :
      {A B : Type 0} (r : Result A) (k : A → Action F S B) (run : Run F S) (b : B)
      (Post : B → Run F S → Type 0)
      → ((a : A) → r ≡ ok a → (x : B) → (k a run).0 ≡ ok x → Post x (k a run).1)
      → (next r k run).0 ≡ ok b
      → Post b (next r k run).1
  next-Returns (ok a) k run b Post h e = h a refl b e
  next-Returns (raise x) k run b Post h e = cc

  bind-Returns :
      {A B : Type 0} {Pre : Run F S → Type 0} (m : Action F S A) (Mid : A → Run F S → Type 0)
      {k : A → Action F S B} {Post : B → Run F S → Type 0}
      → Returns Pre m Mid
      → ((a : A) → Returns (Mid a) (k a) Post)
      → Returns Pre (m >>= k) Post
  unfolding ◌>>=◌
  bind-Returns m Mid {k} {Post} hm hk = record {
    holds = λ run p b e.
        next-Returns (m run).0 k (m run).1 b Post
          (λ a r x d. (hk a).holds (m run).1 (hm.holds run p a r) x d) e;
  }

  if-Returns :
      {A : Type 0} (b : Bool) {Pre : Run F S → Type 0} {x y : Action F S A}
      {Post : A → Run F S → Type 0}
      → Returns Pre x Post
      → Returns Pre y Post
      → Returns Pre (if b then x else y) Post
  if-Returns true hx hy = hx
  if-Returns false hx hy = hy

  any-Returns :
      {A : Type 0} {Pre : Run F S → Type 0} (m : Action F S A) → Returns Pre m (λ _ _. Unit)
  any-Returns m = record { holds = λ run p a e. tt }

  pure-Returns :
      {A : Type 0} {Pre : Run F S → Type 0} (a : A) (Post : A → Run F S → Type 0)
      → ((run : Run F S) → Pre run → Post a run)
      → Returns Pre (pure a) Post
  unfolding pure
  pure-Returns a Post h = record {
    holds = λ run p b e. subst (λ x. Post x run) (same a b e) (h run p);
  }
    where
      same : {A : Type 0} (a b : A) → ok a ≡ ok b → a ≡ b
      same a b e = cc

  gets-Returns :
      {A : Type 0} (g : Run F S → A) (Post : A → Run F S → Type 0)
      → Returns (λ run. Post (g run) run) (gets g) Post
  unfolding gets
  gets-Returns g Post = record { holds = λ run p b e. subst (λ x. Post x run) (same (g run) b e) p }
    where
      same : {A : Type 0} (a b : A) → ok a ≡ ok b → a ≡ b
      same a b e = cc

-- The store has `P` if the cycle returns a summary that is to be recorded.
abbrev Recorded :
    {F S T : Type 0} → Config T → (T → Type 0) → CycleResult F → Run F (Session S T) → Type 0
Recorded c P res run =
    (s : Summary _)
    → res.execution_summary ≡ finished s
    → should_record_execution_marker c.execution_dedup_enabled s ≡ true
    → P (store_of run)

module _ {F S T : Type 0} ⦃f : Float F⦄ (rt : Runtime F S) (c : Config T) (key : Text)
    (st : Store T) (P : T → Type 0) (has_key : HasKey rt c key)
    (configured : c.execution_state_store ≡ some st) (not_blank : is_blank_text key ≡ false)
    (marks : (t : T) → P (st.record_marker key t)) where
  mark-some :
      (k : Text) → is_blank_text k ≡ false → (t : T) → mark (some st) k t ≡ st.record_marker k t
  mark-some k h t = rw h refl

  mark_lem : (o : Option (Store T)) (k : Text) → o ≡ some st → k ≡ key → (t : T) → P (mark o k t)
  mark_lem o k e d t =
      subst (λ x. P (mark x k t)) (sym e)
        (subst (λ x. P (mark (some st) x t)) (sym d)
          (subst P (sym (mark-some key not_blank t)) (marks t)))

  if_mark : (b : Bool) (x t : T) → P x → b ≡ true → P (if b then x else t)
  if_mark true x t p h = p
  if_mark false x t p h = cc

  module _ (Q : T → Type 0) where
    outside-Returns :
        {A : Type 0} (g : S → Result A × S)
        → Returns {F = F} (λ run. Q (store_of run)) (outside g) (λ _ run. Q (store_of run))
    unfolding outside
    outside-Returns g = record { holds = λ run p a e. p }

    emit-Returns :
        (e : Event F)
        → Returns (λ run. Q (store_of run)) (emit_event rt c e) (λ _ run. Q (store_of run))
    unfolding emit_event
    emit-Returns e = outside-Returns (rt.emit e)

  module _ (sig : Signal F) (same : build_marker_key c sig ≡ key) where
    record-Returns :
        Returns {F = F} {S = Session S T}
          (λ _. Unit)
          (record_execution_marker rt c sig)
          (λ _ run.
            should_record_execution_marker c.execution_dedup_enabled run.summary ≡ true
            → P (store_of run))
    unfolding record_execution_marker gets on_session ◌>>=◌
    record-Returns = record {
      holds = λ run p a e h.
          if_mark _ (mark c.execution_state_store (build_marker_key c sig) (store_of run))
            (store_of run)
            (mark_lem c.execution_state_store (build_marker_key c sig) configured same
              (store_of run))
            h;
    }

    report-Returns :
        (targets : Dict F) → Returns (λ _. Unit) (report_cycle rt c sig targets) (Recorded c P)
    unfolding report_cycle
    report-Returns targets = bind-Returns _ _ record-Returns λ _.
        bind-Returns _ _ (gets-Returns (λ run. run.summary) _) λ s.
          bind-Returns _ _ (emit-Returns (kept s) _) λ _.
            bind-Returns _ _ (emit-Returns (kept s) _) λ _.
              bind-Returns _ _ (emit-Returns (kept s) _) λ _. pure-Returns _ _ (λ run p s' e h. p (
                subst (λ x. should_record_execution_marker c.execution_dedup_enabled x ≡ true)
                  (same_summary s s' e) h))
      where
        kept : Summary F → T → Type 0
        kept s t = should_record_execution_marker c.execution_dedup_enabled s ≡ true → P t

        same_summary : (s s' : Summary F) → finished s ≡ finished s' → s' ≡ s
        same_summary s s' e = cc

    noop-Returns : Returns (λ _. Unit) (noop_cycle rt c sig) (Recorded c P)
    unfolding noop_cycle
    noop-Returns = bind-Returns _ _ (any-Returns _) λ _.
        bind-Returns _ _ (any-Returns _)
          λ _. bind-Returns _ _ (any-Returns _) λ _. pure-Returns _ _ (λ run p s e h. cc)

    recorded_cycle-Returns :
        (targets : Dict F) → Returns (λ _. Unit) (recorded_cycle rt c sig targets) (Recorded c P)
    unfolding recorded_cycle
    recorded_cycle-Returns targets = bind-Returns _ _ (any-Returns _) λ _.
        bind-Returns _ _ (any-Returns _)
          λ _. bind-Returns _ _ (any-Returns _) λ _. pure-Returns _ _ (λ run p s e h. cc)

    follow-Returns :
        (snapshot : Snapshot F) (v : View F)
        → Returns (λ _. Unit) (follow_signal rt c snapshot v sig) (Recorded c P)
    unfolding follow_signal trade_cycle
    follow-Returns snapshot v = bind-Returns _ _ (any-Returns _) λ alloc.
        bind-Returns _ _ (any-Returns _) λ recorded. if-Returns (not sig.has_targets) noop-Returns (
          if-Returns recorded (recorded_cycle-Returns alloc.targets)
            (bind-Returns _ _ (any-Returns _) λ _. report-Returns alloc.targets))

  connected-Returns : Returns (λ _. Unit) (connected_cycle rt c) (Recorded c P)
  unfolding connected_cycle outside
  connected-Returns = bind-Returns _ _ (any-Returns _) λ snapshot.
      bind-Returns _ (λ sig _. build_marker_key c sig ≡ key)
        (record { holds = λ run p sig e. has_key _ run.world.session.broker sig e })
        λ sig. record {
          holds = λ run same res e. (follow-Returns sig same snapshot _).holds run tt res e;
        }

  finally-Returns :
      {m : Action F (Session S T) (CycleResult F)}
      → Returns (λ _. Unit) m (Recorded c P)
      → Returns (λ _. Unit) (finally_disconnect rt m) (Recorded c P)
  unfolding finally_disconnect
  finally-Returns h = record { holds = h.holds }

  -- The store has `P`, which `record_marker` establishes, when the summary of the cycle is to be recorded.
  pub run_strategy_core-marks :
      (run : Run F (Session S T)) (res : CycleResult F) (s : Summary F)
      → (run_strategy_core rt c run).0 ≡ ok res
      → res.execution_summary ≡ finished s
      → should_record_execution_marker c.execution_dedup_enabled s ≡ true
      → P (store_of (run_strategy_core rt c run).1)
  unfolding run_strategy_core
  run_strategy_core-marks run res s e =
      (bind-Returns {Pre = λ _. Unit {0}} (outside rt.connect_ib) _ (any-Returns _)
          λ _. finally-Returns connected-Returns).holds
        run tt res e s

module _ {F S S' T : Type 0} ⦃f : Float F⦄ (rt : Runtime F S) (rt' : Runtime F S') (c c' : Config T)
    (key : Text) (st : Store T) (has_key : HasKey rt c key) (has_key' : HasKey rt' c' key)
    (configured : c.execution_state_store ≡ some st)
    (configured' : c'.execution_state_store ≡ some st) (not_blank : is_blank_text key ≡ false)
    (marks : (t : T) → st.has_marker key (st.record_marker key t) ≡ some true) where
  -- After a cycle that returned an execution summary that is to be recorded, a cycle with the same
  -- marker key on the store it left sends no order and leaves the store as it is, where a marker that
  -- the store recorded is one that it has. The cycles may have different configurations and brokers.
  pub run_strategy_core-again :
      (run : Run F (Session S T)) (res : CycleResult F) (s : Summary F)
      → (run_strategy_core rt c run).0 ≡ ok res
      → res.execution_summary ≡ finished s
      → should_record_execution_marker c.execution_dedup_enabled s ≡ true
      → (run' : Run F (Session S' T)) → store_of run' ≡ store_of (run_strategy_core rt c run).1
      → (store_of (run_strategy_core rt' c' run').1 ≡ store_of run')
        × Silent run' (run_strategy_core rt' c' run').1
  run_strategy_core-again run res s e d h run' same =
      run_strategy_core-recorded rt' c' key st has_key' configured' not_blank run' (
        subst (λ t. st.has_marker key t ≡ some true) (sym same)
          (run_strategy_core-marks rt c key st (λ t. st.has_marker key t ≡ some true) has_key
            configured not_blank marks run res s e d h))
