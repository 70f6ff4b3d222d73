-- ===== src/Service/Claim/Backed.antt =====
-- application/rebalance_service.py: what the answers of `acquire_execution_claim` rest on. `P` is a
-- predicate on the marker store that a granted claim establishes.
use ibkrquant.Prelude.{◌≡◌, ◌≢◌, refl, Bool, true, false, Option, none, some, Text, if◌then◌else◌}
use ibkrquant.Execution.Types.{Result, ok, raise}
use ibkrquant.Service.Claim.{
  Store, Config, Session, keep_claim, claim_the_marker, pass_fence, claim_account, claim_store,
  first_attempt, acquire_execution_claim,
}

module _ {S T : Type 0} where
  -- A claim that is held after the attempt, or that was granted, has `P`.
  pub record Backed (P : T → Type 0) (s : Session S T) (out : Result Bool × Session S T)
      : Type 0 where
    pub lasting : P s.store → P out.1.store
    pub held :
        (s.execution_claim_acquired ≡ true → P s.store)
        → out.1.execution_claim_acquired ≡ true
        → P out.1.store
    pub granted : (s.execution_claim_acquired ≡ true → P s.store) → out.0 ≡ ok true → P out.1.store

  -- Where `P` holds already, a claim that is not held stays so.
  pub record Shut (P : T → Type 0) (s : Session S T) (out : Result Bool × Session S T)
      : Type 0 where
    pub lasting : P s.store → P out.1.store
    pub not_held :
        P s.store
        → s.execution_claim_acquired ≡ false
        → (out.1.execution_claim_acquired ≡ false) × (out.0 ≢ ok true)

  module _ {P : T → Type 0} where
    stopped_Backed :
        {e : ibkrquant.Execution.Types.Error} (s : Session S T) (t : T)
        → (P s.store → P t)
        → Backed P s (raise e, record s { store = t })
    stopped_Backed s t keep = record {
      lasting = keep;
      held = λ h a. keep (h a);
      granted = λ h a. cc;
    }

    stopped_Shut :
        {e : ibkrquant.Execution.Types.Error} (s : Session S T) (t : T)
        → (P s.store → P t)
        → Shut P s (raise e, record s { store = t })
    stopped_Shut s t keep = record { lasting = keep; not_held = λ p a. (a, λ g. cc) }

    keep_claim-Backed :
        (answer : Option Bool) (s : Session S T) (t : T)
        → (P s.store → P t)
        → (answer ≡ some true → P t)
        → Backed P s (keep_claim answer (record s { store = t }))
    keep_claim-Backed none s t keep grant = stopped_Backed s t keep
    keep_claim-Backed (some true) s t keep grant = record {
      lasting = keep;
      held = λ h a. grant refl;
      granted = λ h a. grant refl;
    }
    keep_claim-Backed (some false) s t keep grant = record {
      lasting = keep;
      held = λ h a. cc;
      granted = λ h a. cc;
    }

    keep_claim-Shut :
        (answer : Option Bool) (s : Session S T) (t : T)
        → (P s.store → P t)
        → (P s.store → answer ≢ some true)
        → Shut P s (keep_claim answer (record s { store = t }))
    keep_claim-Shut none s t keep refuse = stopped_Shut s t keep
    keep_claim-Shut (some true) s t keep refuse = record {
      lasting = keep;
      not_held = λ p a. absurd (refuse p refl);
    }
    keep_claim-Shut (some false) s t keep refuse = record {
      lasting = keep;
      not_held = λ p a. (refl, λ g. cc);
    }

-- What the store does not undo.
pub record StoreKeeps {T : Type 0} (st : Store T) (P : T → Type 0) : Type 0 where
  pub on_owner : (account owner : Text) (t : T) → P t → P (st.claim_account_owner account owner t).1
  pub on_claim : (key : Text) (t : T) → P t → P (st.claim_marker key t).1
  pub on_record : (key : Text) (t : T) → P t → P (st.record_marker key t)

-- The calls of the store in which both claims are granted.
pub record Granted {T : Type 0} (st : Store T) (key owner account : Text) (t : T) : Type 0 where
  pub owner_allowed : (st.claim_account_owner account owner t).0 ≡ some true
  pub marker_granted :
      (st.claim_marker key (st.claim_account_owner account owner t).1).0 ≡ some true

module _ {S T : Type 0} {P : T → Type 0} (st : Store T) (keeps : StoreKeeps st P)
    (key owner : Text) where
  pass_fence-Backed :
      (allowed : Option Bool) (s : Session S T) (t : T)
      → (P s.store → P t)
      → (allowed ≡ some true → (st.claim_marker key t).0 ≡ some true → P (st.claim_marker key t).1)
      → Backed P s (pass_fence st key allowed (record s { store = t }))
  unfolding claim_the_marker
  pass_fence-Backed none s t keep grant = stopped_Backed s t keep
  pass_fence-Backed (some false) s t keep grant = stopped_Backed s t keep
  pass_fence-Backed (some true) s t keep grant =
      keep_claim-Backed _ s (st.claim_marker key t).1 (λ p. keeps.on_claim key t (keep p))
        (grant refl)

  pass_fence-Shut :
      (allowed : Option Bool) (s : Session S T) (t : T)
      → (P s.store → P t)
      → (P t → (st.claim_marker key t).0 ≢ some true)
      → Shut P s (pass_fence st key allowed (record s { store = t }))
  unfolding claim_the_marker
  pass_fence-Shut none s t keep refuse = stopped_Shut s t keep
  pass_fence-Shut (some false) s t keep refuse = stopped_Shut s t keep
  pass_fence-Shut (some true) s t keep refuse =
      keep_claim-Shut _ s (st.claim_marker key t).1 (λ p. keeps.on_claim key t (keep p))
        (λ p. refuse (keep p))

  claim_account-Backed :
      (account : Result Text) (s : Session S T)
      → ((a : Text) (t : T)
          → account ≡ ok a
          → Granted st key owner a t
          → P (st.claim_marker key (st.claim_account_owner a owner t).1).1)
      → Backed P s (claim_account st key owner account s)
  unfolding claim_account
  claim_account-Backed (raise e) s grant = stopped_Backed s s.store (λ p. p)
  claim_account-Backed (ok a) s grant =
      pass_fence-Backed _ s (st.claim_account_owner a owner s.store).1
        (keeps.on_owner a owner s.store)
        (λ allowed claimed.
          grant a s.store refl (record { owner_allowed = allowed; marker_granted = claimed }))

  claim_account-Shut :
      (account : Result Text) (s : Session S T)
      → ((t : T) → P t → (st.claim_marker key t).0 ≢ some true)
      → Shut P s (claim_account st key owner account s)
  unfolding claim_account
  claim_account-Shut (raise e) s refuse = stopped_Shut s s.store (λ p. p)
  claim_account-Shut (ok a) s refuse =
      pass_fence-Shut _ s (st.claim_account_owner a owner s.store).1
        (keeps.on_owner a owner s.store) (refuse _)

module _ {S T : Type 0} {P : T → Type 0} where
  unclaimed_Backed : (s : Session S T) → Backed P s (ok s.execution_claim_acquired, s)
  unclaimed_Backed s = record { lasting = λ p. p; held = λ h a. h a; granted = λ h a. h cc }

  unclaimed_Shut : (s : Session S T) → Shut P s (ok s.execution_claim_acquired, s)
  unclaimed_Shut s = record { lasting = λ p. p; not_held = λ p a. (a, λ g. cc) }

  marked_Backed :
      {out : Result Bool × Session S T} (s : Session S T)
      → Backed P (record s { execution_claim_attempted = true }) out
      → Backed P s out
  marked_Backed s b = record { lasting = b.lasting; held = b.held; granted = b.granted }

  marked_Shut :
      {out : Result Bool × Session S T} (s : Session S T)
      → Shut P (record s { execution_claim_attempted = true }) out
      → Shut P s out
  marked_Shut s b = record { lasting = b.lasting; not_held = b.not_held }

  if-Backed :
      (b : Bool) (s : Session S T) {x y : Result Bool × Session S T}
      → Backed P s x
      → Backed P s y
      → Backed P s (if b then x else y)
  if-Backed true s hx hy = hx
  if-Backed false s hx hy = hy

  if-Shut :
      (b : Bool) (s : Session S T) {x y : Result Bool × Session S T}
      → Shut P s x
      → Shut P s y
      → Shut P s (if b then x else y)
  if-Shut true s hx hy = hx
  if-Shut false s hx hy = hy

  first_attempt-Backed :
      (o : Option (Store T)) (key owner : Text) (account : Result Text) (s : Session S T)
      → ((st : Store T) → o ≡ some st → StoreKeeps st P)
      → ((st : Store T) (a : Text) (t : T)
          → o ≡ some st
          → account ≡ ok a
          → Granted st key owner a t
          → P (st.claim_marker key (st.claim_account_owner a owner t).1).1)
      → Backed P s (first_attempt o key owner account s)
  first_attempt-Backed none key owner account s keeps grant = unclaimed_Backed s
  first_attempt-Backed (some st) key owner account s keeps grant =
      claim_account-Backed st (keeps st refl) key owner account s (λ a t. grant st a t refl)

  first_attempt-Shut :
      (o : Option (Store T)) (key owner : Text) (account : Result Text) (s : Session S T)
      → ((st : Store T) → o ≡ some st → StoreKeeps st P)
      → ((st : Store T) → o ≡ some st → (t : T) → P t → (st.claim_marker key t).0 ≢ some true)
      → Shut P s (first_attempt o key owner account s)
  first_attempt-Shut none key owner account s keeps refuse = unclaimed_Shut s
  first_attempt-Shut (some st) key owner account s keeps refuse =
      claim_account-Shut st (keeps st refl) key owner account s (refuse st refl)

  module _ (c : Config T) (key owner : Text) (account : Result Text)
      (keeps : (st : Store T) → claim_store c key ≡ some st → StoreKeeps st P) where
    pub acquire-Backed :
        ((st : Store T) (a : Text) (t : T)
          → claim_store c key ≡ some st
          → account ≡ ok a
          → Granted st key owner a t
          → P (st.claim_marker key (st.claim_account_owner a owner t).1).1)
        → (s : Session S T) → Backed P s (acquire_execution_claim c key owner account s)
    unfolding acquire_execution_claim
    acquire-Backed grant s =
        if-Backed s.execution_claim_attempted s (unclaimed_Backed s) (
          marked_Backed s
            (first_attempt-Backed (claim_store c key) key owner account _ keeps grant))

    pub acquire-Shut :
        ((st : Store T)
          → claim_store c key ≡ some st
          → (t : T) → P t
          → (st.claim_marker key t).0 ≢ some true)
        → (s : Session S T) → Shut P s (acquire_execution_claim c key owner account s)
    unfolding acquire_execution_claim
    acquire-Shut refuse s =
        if-Shut s.execution_claim_attempted s (unclaimed_Shut s)
          (marked_Shut s (first_attempt-Shut (claim_store c key) key owner account _ keeps refuse))
