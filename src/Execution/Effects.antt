-- ===== src/Execution/Effects.antt =====
-- What a run of application/execution_service.py does outside the summary: a relation between the
-- run before and after, kept by each statement, is kept by the whole function.
pub mod Loops
pub mod Phases
pub mod Whole
pub mod Orders
pub mod Locks
pub mod Endings
use ibkrquant.Prelude.{◌≡◌, refl, Bool, true, false, List, [], Option, none, some, if◌then◌else◌}
use ibkrquant.Execution.Types.{Result, ok, raise, Intent, Report, Summary, Broker, World}
use ibkrquant.Execution.Run.{
  Run, Action, pure, next, ◌>>=◌, lift, gets, update, submit_claimed_order,
}

module _ {F S : Type 0} (R : Run F S → Run F S → Type 0) where
  -- However the action ends, the relation holds from its start to its end.
  pub record Keeps {A : Type 0} (m : Action F S A) : Type 0 where
    pub holds : (run : Run F S) → R run (m run).1

  -- What the statements that change nothing but the summary need.
  pub record Frame : Type 0 where
    pub stay : (run : Run F S) → R run run
    pub chain : (r s t : Run F S) → R r s → R s t → R r t
    pub on_summary : (run : Run F S) (s : Summary F) → R run (record run { summary = s })

  -- The statements that reach the broker, and what they need. `Allowed` is what is known of an order.
  pub record Rule (broker : Broker F S) (dry : Bool) (Allowed : Intent F → Type 0) : Type 0 where
    pub frame : Frame
    pub on_settle :
        dry ≡ false
        → (run : Run F S)
        → R run
            (record run { world = record run.world { session = broker.settle run.world.session } })
    pub on_submit :
        dry ≡ false
        → (i : Intent F) → Allowed i
        → (run : Run F S) → R run (submit_claimed_order broker i run).1

module _ {F S : Type 0} {R : Run F S → Run F S → Type 0} (frame : Frame R) where
  open frame use {stay, chain, on_summary}

  pub stay-Keeps : {A : Type 0} (a : A) → Keeps R (pure {F = F} {S = S} a)
  unfolding pure
  stay-Keeps a = record { holds = λ run. stay run }

  next-holds :
      {A B : Type 0} (r : Result A) (k : A → Action F S B)
      → ((a : A) → r ≡ ok a → Keeps R (k a))
      → (run : Run F S) → R run (next r k run).1
  next-holds (ok a) k h run = (h a refl).holds run
  next-holds (raise e) k h run = stay run

  pub bind-Keeps :
      {A B : Type 0} {m : Action F S A} {k : A → Action F S B}
      → Keeps R m
      → ((a : A) → Keeps R (k a))
      → Keeps R (m >>= k)
  unfolding ◌>>=◌
  bind-Keeps {m} {k} hm hk = record {
    holds = λ run.
        chain run (m run).1 ((m >>= k) run).1 (hm.holds run)
          (next-holds (m run).0 k (λ a _. hk a) (m run).1);
  }

  pub if-Keeps :
      {A : Type 0} (b : Bool) {x y : Action F S A}
      → (b ≡ true → Keeps R x)
      → (b ≡ false → Keeps R y)
      → Keeps R (if b then x else y)
  if-Keeps true hx hy = hx refl
  if-Keeps false hx hy = hy refl

  pub noted-Keeps : (g : Summary F → Summary F) → Keeps R (update {S = S} g)
  unfolding update
  noted-Keeps g = record { holds = λ run. on_summary run _ }

  pub read-Keeps : {A : Type 0} (g : Run F S → A) → Keeps R (gets g)
  unfolding gets
  read-Keeps g = record { holds = stay }

  pub lift-Keeps : {A : Type 0} (r : Result A) → Keeps R (lift {F = F} {S = S} r)
  unfolding lift
  lift-Keeps r = record { holds = stay }

  pub lift-bind-Keeps :
      {A B : Type 0} (r : Result A) {k : A → Action F S B}
      → ((x : A) → r ≡ ok x → Keeps R (k x))
      → Keeps R (lift r >>= k)
  unfolding lift ◌>>=◌
  lift-bind-Keeps r {k} h = record { holds = next-holds r k h }
