-- ===== src/Recovery/Ledger/Transition.antt =====
-- scripts/reconciliation_recovery_state_ledger.py: what a ledger that was built does to a target.
use ibkrquant.Prelude.{
  ◌≡◌, refl, sym, ◌∙◌, ap, Bool, true, false, [], Option, none, some, some-injective, Text, codes,
  strip, strip-strip, text_eq, text_eq_iff, text_eq_refl, text_eq→path, keys, Dict, lookup,
  same_set, mem_text, arith,
}
use mathlib.Core.Path.{subst}
use ibkrquant.Recovery.Ledger.{
  Values, Plan, RecoveryKit, check, bind, ledger_schema, is_service_name, text_at, has, is_text,
  required_of_ledger, ledger_service_name, plan_at, is_ready, agrees_with_plan, ledger_of,
  build_recovery_state_ledger, transition, apply_recovery_state_ledger,
}

-- JSON values read as they were made, and a plan as it was written.
pub record IsRecovery {V : Type 0} (values : Values V) (kit : RecoveryKit V) : Type 0 where
  pub string_back : (t : Text) → values.as_string (values.of_text t) ≡ some t
  pub text_back : (t : Text) → values.text (values.of_text t) ≡ t
  pub mapping_back : (d : Dict V) → values.as_mapping (values.of_dict d) ≡ some d
  pub plan_back : (p : Plan) → kit.plan_from_dict (kit.plan_to_dict p) ≡ some p

pub check-some :
    {A : Type 0} (b : Bool) (x : Option A) (a : A) → check b x ≡ some a → (b ≡ true) × (x ≡ some a)
check-some true x a h = (refl, h)
check-some false x a h = cc

pub bind-some :
    {A B : Type 0} (o : Option A) (g : A → Option B) (b : B)
    → bind o g ≡ some b
    → (a : A) × (o ≡ some a) × (g a ≡ some b)
bind-some none g b h = cc
bind-some (some a) g b h = (a, refl, h)

strip-nil : strip [] ≡ []
unfolding strip
strip-nil = refl

module _ {V : Type 0} (values : Values V) (kit : RecoveryKit V) where
  -- What a verification was when a ledger was built of it.
  pub record Built (verification : Dict V) (service_name : Text) (ledger : Dict V) : Type 0 where
    pub plan : Plan
    pub is_read : plan_at values kit verification ≡ some plan
    pub ready : is_ready values kit verification ≡ true
    pub agrees : agrees_with_plan values kit verification plan ≡ true
    pub is_name : is_service_name service_name ≡ true
    pub is_ledger : ledger ≡ ledger_of values kit plan service_name

  build_Built :
      (verification : Dict V) (service_name : Text) (ledger : Dict V)
      → build_recovery_state_ledger values kit verification service_name ≡ some ledger
      → Built verification service_name ledger
  unfolding build_recovery_state_ledger
  build_Built verification service_name ledger h =
      let (ready, p) = check-some (is_ready values kit verification) _ ledger h in
      let (plan, read, q) = bind-some (plan_at values kit verification) _ ledger p in
      let (agrees, r) = check-some (agrees_with_plan values kit verification plan) _ ledger q in
      let (name, e) = check-some (is_service_name service_name) _ ledger r in
      record {
        plan = plan;
        is_read = read;
        ready = ready;
        agrees = agrees;
        is_name = name;
        is_ledger = sym (some-injective (ledger_of values kit plan service_name) ledger e);
      }

  module _ (laws : IsRecovery values kit) where
    first-of-agrees :
        (verification : Dict V) (plan : Plan)
        → agrees_with_plan values kit verification plan ≡ true
        → text_eq (text_at values kit (codes "recovery_id") verification) plan.recovery_id ≡ true
    unfolding agrees_with_plan
    first-of-agrees verification plan h = ground arith

    is_text_self : (t : Text) → is_text values kit t (values.of_text t) ≡ true
    is_text_self t =
        subst (λ o. (elim o [ none ↦ false | some s ↦ text_eq s t ]) ≡ true)
          (sym (laws.string_back t)) (text_eq_refl t)

    recovery_id-stripped :
        (verification : Dict V) (plan : Plan)
        → agrees_with_plan values kit verification plan ≡ true
        → strip plan.recovery_id ≡ plan.recovery_id
    recovery_id-stripped verification plan h =
        let same : text_at values kit (codes "recovery_id") verification ≡ plan.recovery_id =
          text_eq→path _ _ (first-of-agrees verification plan h) in
        subst (λ t. strip t ≡ t) same (text_at-stripped verification)
      where
        text-stripped :
            (o : Option V)
            → strip (elim o [ none ↦ [] | some v ↦ strip (values.text v) ])
              ≡ elim o [ none ↦ [] | some v ↦ strip (values.text v) ]
        text-stripped none = strip-nil
        text-stripped (some v) = strip-strip (values.text v)

        text_at-stripped :
            (d : Dict V)
            → strip (text_at values kit (codes "recovery_id") d)
              ≡ text_at values kit (codes "recovery_id") d
        text_at-stripped d = text-stripped (lookup (codes "recovery_id") d)

    service_name-ledger_of :
        (plan : Plan) (service_name : Text)
        → is_service_name service_name ≡ true
        → ledger_service_name values kit (ledger_of values kit plan service_name)
          ≡ some service_name
    unfolding ledger_service_name ledger_of lookup text_eq
    service_name-ledger_of plan service_name h = rw (laws.string_back service_name) (rw h refl)

    plan-ledger_of :
        (plan : Plan) (service_name : Text)
        → plan_at values kit (ledger_of values kit plan service_name) ≡ some plan
    unfolding plan_at ledger_of lookup text_eq
    plan-ledger_of plan service_name =
        rw (laws.mapping_back (kit.plan_to_dict plan)) (laws.plan_back plan)

    header-ledger_of :
        (plan : Plan) (service_name : Text)
        → (same_set (keys (ledger_of values kit plan service_name)) required_of_ledger ≡ true)
          × (has values kit
                (is_text values kit ledger_schema)
                (codes "schema_version")
                (ledger_of values kit plan service_name)
              ≡ true)
          × (text_at values kit (codes "recovery_id") (ledger_of values kit plan service_name)
              ≡ strip plan.recovery_id)
    unfolding ledger_of lookup text_eq mem_text
    header-ledger_of plan service_name =
        (refl, is_text_self ledger_schema, ap strip (laws.text_back plan.recovery_id))

    check-true : {A : Type 0} (b : Bool) (x : Option A) → b ≡ true → check b x ≡ x
    check-true true x h = refl
    check-true false x h = cc

    bind-just :
        {A B : Type 0} (o : Option A) (g : A → Option B) (a : A) → o ≡ some a → bind o g ≡ g a
    bind-just o g a h = rw h refl

    apply-ledger_of :
        (plan : Plan) (service_name : Text) (target : Dict V)
        → is_service_name service_name ≡ true
        → strip plan.recovery_id ≡ plan.recovery_id
        → apply_recovery_state_ledger values kit target (ledger_of values kit plan service_name)
          ≡ transition values kit plan service_name target
    unfolding apply_recovery_state_ledger
    apply-ledger_of plan service_name target name stripped =
        let h = header-ledger_of plan service_name in
        let same =
          (text_eq_iff
              (text_at values kit (codes "recovery_id") (ledger_of values kit plan service_name))
              plan.recovery_id).1
            (h.2 ∙ stripped) in
        check-true _ _ h.0
        ∙ check-true _ _ h.1
        ∙ bind-just (ledger_service_name values kit (ledger_of values kit plan service_name)) _
            service_name (service_name-ledger_of plan service_name name)
        ∙ bind-just (plan_at values kit (ledger_of values kit plan service_name)) _ plan
            (plan-ledger_of plan service_name)
        ∙ check-true _ _ same

    -- A ledger that was built of a verification is applied to every target as the transition of the
    -- verification's plan for the service it was built for: nothing of the plan is lost on the way, and
    -- an error of the one is an error of the other. JSON values and plans are read back as they were
    -- written.
    pub apply-build_recovery_state_ledger :
        (verification : Dict V) (service_name : Text) (ledger : Dict V)
        → build_recovery_state_ledger values kit verification service_name ≡ some ledger
        → (plan : Plan) × (plan_at values kit verification ≡ some plan)
          × ((target : Dict V)
              → apply_recovery_state_ledger values kit target ledger
                ≡ transition values kit plan service_name target)
    apply-build_recovery_state_ledger verification service_name ledger h =
        let b = build_Built verification service_name ledger h in
        (
          b.plan,
          b.is_read,
          λ target.
              subst
                (λ l.
                  apply_recovery_state_ledger values kit target l
                  ≡ transition values kit b.plan service_name target)
                (sym b.is_ledger)
                (apply-ledger_of b.plan service_name target b.is_name
                  (recovery_id-stripped verification b.plan b.agrees)),
        )
