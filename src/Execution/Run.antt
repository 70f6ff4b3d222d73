-- ===== src/Execution/Run.antt =====
-- A run of application/execution_service.py: statements that read and change the broker session, the
-- lock files and the execution summary, and that may raise. What was written stays written.
use ibkrquant.Prelude.{Bool, true, false, [], ◌∷◌, ◌++◌, Option, none, some}
use ibkrquant.Execution.Types.{
  Error, execution_claim_required, Result, ok, raise, Intent, Report, Summary, Broker, World,
}

pub record Run (F S : Type 0) : Type 0 where
  pub world : World F S
  pub summary : Summary F

abbrev pub Action : Type 0 → Type 0 → Type 0 → Type 0
Action F S A = Run F S → Result A × Run F S

module _ {F S : Type 0} where
  unfoldable pub pure : {A : Type 0} → A → Action F S A
  pure a run = (ok a, run)

  abbrev pub throw : {A : Type 0} → Error → Action F S A
  throw e run = (raise e, run)

  abbrev pub next : {A B : Type 0} → Result A → (A → Action F S B) → Action F S B
  next (ok a) k = k a
  next (raise e) k = throw e

  infixl 5 ◌>>=◌ ◌>>◌
  unfoldable pub ◌>>=◌ : {A B : Type 0} → Action F S A → (A → Action F S B) → Action F S B
  m >>= k = λ run. let (r, run') = m run in next r k run'

  abbrev pub ◌>>◌ : {A B : Type 0} → Action F S A → Action F S B → Action F S B
  m >> k = m >>= λ _. k

  unfoldable pub lift : {A : Type 0} → Result A → Action F S A
  lift r run = (r, run)

  unfoldable pub gets : {A : Type 0} → (Run F S → A) → Action F S A
  gets g run = (ok (g run), run)

  unfoldable pub update : (Summary F → Summary F) → Action F S (Unit {0})
  update g run = (ok tt, record run { summary = g run.summary })

  unfoldable pub on_session : (S → S) → Action F S (Unit {0})
  on_session g run =
      (ok tt, record run { world = record run.world { session = g run.world.session } })

  abbrev with_session : S → Run F S → Run F S
  with_session s run = record run { world = record run.world { session = s } }

  abbrev note_sent : Intent F → S → Run F S → Run F S
  note_sent i s run = record run {
    world = record run.world { session = s; sent = run.world.sent ++ i ∷ [] };
  }

  -- `delegate_submit(ib, order_intent)`
  unfoldable pub delegate_submit : Broker F S → Intent F → Action F S (Report F)
  delegate_submit b intent run =
      let (r, s) = b.submit intent run.world.session in (r, note_sent intent s run)

  unfoldable pub granted : Broker F S → Intent F → Result Bool → Action F S (Report F)
  unfolding delegate_submit
  granted b intent (ok true) = delegate_submit b intent
  granted b intent (ok false) = throw execution_claim_required
  granted b intent (raise e) = throw e

  unfoldable pub acquired :
      Broker F S → Intent F → Option (S → Result Bool × S) → Action F S (Report F)
  unfolding granted
  acquired b intent none = throw execution_claim_required
  acquired b intent (some acquire) = λ run.
      granted b intent (acquire run.world.session).0
        (with_session (acquire run.world.session).1 run)

  -- `submit_claimed_order`, which every submission of a live run goes through
  unfoldable pub submit_claimed_order : Broker F S → Intent F → Action F S (Report F)
  unfolding acquired
  submit_claimed_order b intent = acquired b intent b.claim
