-- ===== src/Reconcile/Checked.antt =====
-- application/broker_reconciliation.py and application/broker_reconciliation_candidate.py: a value, or
-- the test that refused it.
use ibkrquant.Prelude.{◌≡◌, refl, ap, Bool, true, false, Text}

-- The errors that the modules raise, with the field's or the surface's name where the message has it.
pub data Refusal : Type 0 where
  not_canonical not_sha256 not_git_sha not_shared : Text → Refusal
  not_repository not_workflow_path no_designation not_main_ref not_success : Refusal
  artifact_name_mismatch repeated_artifact repeated_run invalid_fields bad_schema : Refusal
  no_record repeated_record ids_mismatch other_profile provenance_mismatch : Refusal
  members_mismatch not_v1 not_v2 binding_mismatch : Refusal
  -- an error of `from_dict`
  bad_candidate : Refusal
  -- the read errors of a broker's surfaces
  missing_field unscoped out_of_scope : Text → Refusal
  no_account_ids no_cash_tag no_contract incomplete_execution bad_metadata : Refusal
  no_identity no_cash_balances no_open_orders no_executions snapshot_failed : Refusal
  digests_not_json digests_not_an_object digests_incomplete : Refusal
  no_baseline incomplete_baseline ledger_failed : Refusal

pub data Checked {ℓ} (A : Type ℓ) : Type ℓ where
  ok : A → Checked A
  refused : Refusal → Checked A

infixl 5 ◌>>=◌ ◌>>◌
abbrev pub ◌>>=◌ {ℓ κ} : {A : Type ℓ} {B : Type κ} → Checked A → (A → Checked B) → Checked B
ok a >>= f = f a
refused e >>= f = refused e

abbrev pub ◌>>◌ {ℓ} : {B : Type ℓ} → Checked (Unit {0}) → Checked B → Checked B
m >> k = m >>= λ _. k

-- `if not test: raise ...`
abbrev pub require : Bool → Refusal → Checked (Unit {0})
require true e = ok tt
require false e = refused e

pub >>=-ok {ℓ κ} :
    {A : Type ℓ} {B : Type κ} (m : Checked A) (f : A → Checked B) (b : B)
    → (m >>= f) ≡ ok b
    → (a : A) × (m ≡ ok a) × (f a ≡ ok b)
>>=-ok (ok a) f b h = (a, refl, h)
>>=-ok (refused e) f b h = cc

pub require-ok {ℓ} :
    {B : Type ℓ} (t : Bool) (e : Refusal) (k : Checked B) (b : B)
    → (require t e >> k) ≡ ok b
    → (t ≡ true) × (k ≡ ok b)
require-ok true e k b h = (refl, h)
require-ok false e k b h = cc

pub ok-injective {ℓ} : {A : Type ℓ} (a b : A) → ok a ≡ ok b → a ≡ b
ok-injective {A = A} a b h = ap (value a) h
  where
    value : A → Checked A → A
    value d (ok x) = x
    value d (refused e) = d

pub required : (t : Bool) (e : Refusal) → require t e ≡ ok tt → t ≡ true
required true e h = refl
required false e h = cc

pub bind-ok {ℓ κ} :
    {A : Type ℓ} {B : Type κ} (m : Checked A) (f : A → Checked B) (a : A)
    → m ≡ ok a
    → (m >>= f) ≡ f a
bind-ok m f a h = ap (λ n. n >>= f) h

pub require-true {ℓ} :
    {B : Type ℓ} (t : Bool) (e : Refusal) (k : Checked B) → t ≡ true → (require t e >> k) ≡ k
require-true true e k h = refl
require-true false e k h = cc
