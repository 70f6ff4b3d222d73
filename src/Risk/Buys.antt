-- ===== src/Risk/Buys.antt =====
-- What the gate lets through to IBKR.
use ibkrquant.Prelude.{
  ◌≡◌, refl, sym, ◌∙◌, ap, Bool, true, false, ◌&&◌, inl, inr, List, [], ◌∷◌, ◌++◌, Option, none,
  some, All, All-append, Bool-cases, arith,
}
use mathlib.Core.List.{append-nil, append_assoc}
use ibkrquant.Number.{Float, ◌≼◌, ◌≺◌, ◌⊗◌, nought}
use ibkrquant.Execution.Types.{Result, ok, raise, Intent, Report, Broker}
use ibkrquant.Execution.Run.{Run, granted, acquired, delegate_submit, submit_claimed_order}
use ibkrquant.Execution.Rebalance.{Args, Kit}
use ibkrquant.Execution.Cycle.{execute_rebalance}
use ibkrquant.Execution.Effects.{Rule}
use ibkrquant.Execution.Effects.Orders.{whole-Keeps}
use ibkrquant.Risk.Admission.{
  RiskKit, Admission, evaluate_cycle_new_risk_admission, apply_combined_scale,
}
use ibkrquant.Risk.Submission.{
  Gate, is_buy, intent_with_default_time_in_force, judged, submit_order_intent, logged, beside_log,
  gated,
}

-- A log that grew by orders of which each is allowed.
pub record Grows {F : Type 0} (Allowed : Intent F → Type 0) (before after : List (Intent F))
    : Type 0 where
  pub orders : List (Intent F)
  pub grown : after ≡ before ++ orders
  pub allowed : All Allowed orders

module _ {F : Type 0} {Allowed : Intent F → Type 0} where
  Grows-none : (log : List (Intent F)) → Grows Allowed log log
  Grows-none log = record { orders = []; grown = sym (append-nil log); allowed = tt }

  Grows-one : (log : List (Intent F)) (i : Intent F) → Allowed i → Grows Allowed log (log ++ i ∷ [])
  Grows-one log i h = record { orders = i ∷ []; grown = refl; allowed = (h, tt) }

  Grows-chain :
      (a b c : List (Intent F)) → Grows Allowed a b → Grows Allowed b c → Grows Allowed a c
  Grows-chain a b c p q = record {
    orders = p.orders ++ q.orders;
    grown = q.grown ∙ ap (λ xs. xs ++ q.orders) p.grown ∙ append_assoc a p.orders q.orders;
    allowed = All-append Allowed p.orders q.orders p.allowed q.allowed;
  }

-- An order that is a sale.
abbrev pub IsSale : {F : Type 0} → Intent F → Type 0
IsSale i = is_buy i.side ≡ false

module _ {F S : Type 0} ⦃f : Float F⦄ (gate : Gate F)
    (enabled : gate.is_account_new_risk_gate_enabled ≡ true)
    (prohibited : (evaluate_cycle_new_risk_admission gate.risk gate.cycle_snapshot).prohibited
      ≡ true) where
  submit-Grows :
      (submit : Intent F → S → Result (Report F) × S) (i : Intent F) (s : S × List (Intent F))
      → Grows IsSale s.1 (submit_order_intent gate (logged submit) i s).1.1
  unfolding submit_order_intent intent_with_default_time_in_force
  submit-Grows submit i s = elim (Bool-cases (is_buy i.side)) [
    | inl buying ↦ rw enabled (rw buying (rw prohibited (Grows-none s.1)))
    | inr selling ↦ rw enabled (rw selling (Grows-one s.1 _ selling))
  ]

  -- the relation on runs: the log grew by sales
  GrowsRun : Run F (S × List (Intent F)) → Run F (S × List (Intent F)) → Type 0
  GrowsRun r s = Grows IsSale r.world.session.1 s.world.session.1

  granted-Grows :
      (broker : Broker F S) (i : Intent F) (grant : Result Bool) (run : Run F (S × List (Intent F)))
      → GrowsRun run (granted (gated gate broker) i grant run).1
  unfolding granted delegate_submit gated GrowsRun
  granted-Grows broker i (ok true) run = submit-Grows broker.submit i run.world.session
  granted-Grows broker i (ok false) run = Grows-none _
  granted-Grows broker i (raise e) run = Grows-none _

  acquired-Grows :
      (broker : Broker F S) (i : Intent F) (claim : Option (S → Result Bool × S))
      → (run : Run F (S × List (Intent F)))
      → GrowsRun run (acquired (gated gate broker) i (beside_log claim) run).1
  unfolding acquired GrowsRun
  acquired-Grows broker i none run = Grows-none _
  acquired-Grows broker i (some acquire) run =
      granted-Grows broker i (acquire run.world.session.0).0 (record run {
        world = record run.world {
          session = ((acquire run.world.session.0).1, run.world.session.1);
        };
      })

  Grows-rule :
      (broker : Broker F S) (dry : Bool) (Allowed : Intent F → Type 0)
      → Rule GrowsRun (gated gate broker) dry Allowed
  unfolding gated GrowsRun submit_claimed_order
  Grows-rule broker dry Allowed = record {
    frame = record {
      stay = λ run. Grows-none _;
      chain = λ r s t p q. Grows-chain r.world.session.1 s.world.session.1 t.world.session.1 p q;
      on_summary = λ run s. Grows-none _;
    };
    on_settle = λ e run. Grows-none _;
    on_submit = λ e i h run. acquired-Grows broker i broker.claim run;
  }

  -- Where the gate is enabled and prohibits new risk, every order of a run that reaches IBKR is a sale,
  -- whatever the run is asked to do and however it ends.
  pub execute_rebalance-prohibited :
      (a : Args F) (kit : Kit F) (broker : Broker F S) (run : Run F (S × List (Intent F)))
      → Grows IsSale run.world.session.1
          (execute_rebalance a kit (gated gate broker) run).1.world.session.1
  unfolding GrowsRun
  execute_rebalance-prohibited a kit broker =
      (whole-Keeps a kit (gated gate broker) {R = GrowsRun} {Allowed = λ _. Unit}
        (Grows-rule broker a.dry_run_only _) (λ i e. tt) (λ run l. Grows-none _)).holds

-- What multiplication by a scale of at most one does to an amount that is not negative.
pub record IsScaling (F : Type 0) ⦃f : Float F⦄ : Type 0 where
  pub scaled_le :
      (a s : F)
      → (nought ≼ a) ≡ true
      → (nought ≺ s) ≡ true
      → (s ≼ f.lit 1 0) ≡ true
      → (a ⊗ s ≼ a) ≡ true
  pub le_refl : (a : F) → (nought ≼ a) ≡ true → (a ≼ a) ≡ true

-- The order `j` is the order `i`, perhaps with a smaller quantity.
abbrev pub IsReduced : {F : Type 0} ⦃f : Float F⦄ → Intent F → Intent F → Type 0
IsReduced i j =
    (j.symbol ≡ i.symbol)
    × (j.side ≡ i.side)
    × (j.account_id ≡ i.account_id)
    × ((j.quantity ≼ i.quantity) ≡ true)

module _ {F : Type 0} ⦃f : Float F⦄ ⦃laws : IsScaling F⦄ (risk : RiskKit F) where
  apply_combined_scale-le :
      (value : F) (scale : Option F)
      → (nought ≼ value) ≡ true
      → (apply_combined_scale risk value scale ≼ value) ≡ true
  unfolding apply_combined_scale
  apply_combined_scale-le value none h = laws.le_refl value h
  apply_combined_scale-le value (some s) h =
      ground (arith, laws.le_refl value h, laws.scaled_le value s h)

module _ {F S : Type 0} ⦃f : Float F⦄ ⦃laws : IsScaling F⦄ (gate : Gate F)
    (submit : Intent F → S → Result (Report F) × S) where
  judged-Grows :
      (admission : Admission F) (i : Intent F) (s : S × List (Intent F))
      → (nought ≼ i.quantity) ≡ true
      → Grows (IsReduced i) s.1 (judged gate (logged submit) admission i s).1.1
  judged-Grows admission i s h = elim (Bool-cases admission.prohibited) [
    | inl refused ↦ rw refused (Grows-none s.1)
    | inr passed ↦ rw passed (
        Grows-one s.1 _ (
          refl,
          refl,
          refl,
          apply_combined_scale-le gate.risk i.quantity admission.combined_scale h,
        ))
  ]

  -- What a submission hands to IBKR has the symbol, side and account of the order that was submitted, and
  -- no larger quantity than that, where it is not negative.
  pub submit_order_intent-reduces :
      (i : Intent F) (s : S × List (Intent F))
      → (nought ≼ i.quantity) ≡ true
      → Grows (IsReduced i) s.1 (submit_order_intent gate (logged submit) i s).1.1
  unfolding submit_order_intent intent_with_default_time_in_force
  submit_order_intent-reduces i s h =
      elim (Bool-cases (gate.is_account_new_risk_gate_enabled && is_buy i.side)) [
        | inl bought ↦ rw bought (
            judged-Grows (evaluate_cycle_new_risk_admission gate.risk gate.cycle_snapshot)
              (intent_with_default_time_in_force i) s h)
        | inr free ↦ rw free (Grows-one s.1 _ (refl, refl, refl, laws.le_refl i.quantity h))
      ]
