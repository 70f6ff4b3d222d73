-- ===== src/Service/Claim.antt =====
-- application/rebalance_service.py: the claim that a cycle must hold before it sends an order.
pub mod Backed
use ibkrquant.Prelude.{
  Bool, true, false, ◌&&◌, not, List, [], Option, none, some, Text, codes, strip, is_blank_text,
  is_some, if◌then◌else◌,
}
use ibkrquant.Execution.Types.{
  owner_fence_unavailable, owner_fence_contested, execution_claim_unavailable, Result, ok, raise,
}
use ibkrquant.Service.Fence.{resolve_execution_account_scope, resolve_physical_account_id}
use ibkrquant.Service.Signal.{Signal, or_text}

-- `execution_state_store`, with the state `T`. `none` is an exception. The metadata that it keeps
-- beside a marker decides nothing here.
pub record Store (T : Type 0) : Type 0 where
  pub has_marker : Text → T → Option Bool
  -- `has_prior_execution_report`, if the store has it: profile, scope, signal date, effective date, dry run
  pub has_prior_execution_report : Option (Text → Text → Text → Text → Bool → T → Option Bool)
  -- `claim_account_owner` on this store, for an account and an owner: whether it is allowed
  pub claim_account_owner : Text → Text → T → Option Bool × T
  pub claim_marker : Text → T → Option Bool × T
  pub record_marker : Text → T → T

-- `IBKRRebalanceConfig`, and the key builder of `quant_platform_kit`: profile, scope, mode, signal date,
-- effective date, timing contract.
pub record Config (T : Type 0) : Type 0 where
  pub strategy_profile : Text
  pub execution_mode : Text
  pub dry_run_only : Bool
  pub notify_no_trade_cycles : Bool
  pub execution_dedup_enabled : Bool
  pub execution_state_store : Option (Store T)
  pub execution_state_account_scope : Text
  pub account_ids : List Text
  pub build_execution_marker_key : Text → Text → Text → Text → Text → Text → Text

-- What a cycle reads and changes outside the run: the broker's session, the marker store, and the two
-- variables of the claim.
pub record Session (S T : Type 0) : Type 0 where
  pub broker : S
  pub store : T
  pub execution_claim_attempted : Bool
  pub execution_claim_acquired : Bool

unfoldable pub scope_of : {T : Type 0} → Config T → Text
scope_of c = resolve_execution_account_scope c.execution_state_account_scope c.dry_run_only

module _ {F : Type 0} where
  abbrev pub signal_date : Signal F → Text
  signal_date sig = or_text sig.trade_date sig.effective_date

  abbrev pub effective_date_of : Signal F → Text
  effective_date_of sig = or_text sig.effective_date sig.trade_date

module _ {F T : Type 0} where
  abbrev pub profile_of : Config T → Signal F → Text
  profile_of c sig = or_text sig.strategy_profile (or_text c.strategy_profile (codes "unknown"))

  -- `_build_execution_marker_key`
  unfoldable pub build_marker_key : Config T → Signal F → Text
  build_marker_key c sig =
      if not c.execution_dedup_enabled
      then []
      else c.build_execution_marker_key (profile_of c sig) (scope_of c)
          (if c.dry_run_only then codes "paper" else codes "live") (signal_date sig)
          (effective_date_of sig) sig.execution_timing_contract

  -- `owner_id`
  unfoldable pub owner_of : Config T → Signal F → Text
  owner_of c sig =
      or_text (strip (or_text sig.strategy_profile c.strategy_profile)) (codes "unknown")

-- the store that a claim goes to, if the cycle claims at all
unfoldable pub claim_store : {T : Type 0} → Config T → Text → Option (Store T)
claim_store c key =
    if not c.dry_run_only && c.execution_dedup_enabled && not (is_blank_text key)
    then c.execution_state_store
    else none

module _ {S T : Type 0} where
  abbrev with_store : T → Session S T → Session S T
  with_store t s = record s { store = t }

  -- what follows the answer of `claim_marker`
  abbrev pub keep_claim : Option Bool → Session S T → Result Bool × Session S T
  keep_claim none s = (raise execution_claim_unavailable, s)
  keep_claim (some b) s = (ok b, record s { execution_claim_acquired = b })

  unfoldable pub claim_the_marker : Store T → Text → Session S T → Result Bool × Session S T
  claim_the_marker st key s =
      let (answer, t) = st.claim_marker key s.store in keep_claim answer (with_store t s)

  -- what follows the answer of `claim_account_owner`
  abbrev pub pass_fence : Store T → Text → Option Bool → Session S T → Result Bool × Session S T
  pass_fence st key none s = (raise owner_fence_unavailable, s)
  pass_fence st key (some false) s = (raise owner_fence_contested, s)
  pass_fence st key (some true) s = claim_the_marker st key s

  -- the calls of the store, for the account that the fence resolved
  unfoldable pub claim_account :
      Store T → Text → Text → Result Text → Session S T → Result Bool × Session S T
  claim_account st key owner (raise e) s = (raise e, s)
  claim_account st key owner (ok account) s =
      let (allowed, t) = st.claim_account_owner account owner s.store in
      pass_fence st key allowed (with_store t s)

  abbrev pub first_attempt :
      Option (Store T) → Text → Text → Result Text → Session S T → Result Bool × Session S T
  first_attempt none key owner account s = (ok s.execution_claim_acquired, s)
  first_attempt (some st) key owner account s = claim_account st key owner account s

  -- `acquire_execution_claim`, of a cycle with this key, owner and account
  unfoldable pub acquire_execution_claim :
      Config T → Text → Text → Result Text → Session S T → Result Bool × Session S T
  acquire_execution_claim c key owner account s =
      if s.execution_claim_attempted
      then (ok s.execution_claim_acquired, s)
      else first_attempt (claim_store c key) key owner account
          (record s { execution_claim_attempted = true })
