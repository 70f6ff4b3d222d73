-- ===== src/Service/Fence.antt =====
-- application/rebalance_service.py: the one physical account that a cycle may trade.
use ibkrquant.Prelude.{
  ◌≡◌, Bool, true, false, ◌&&◌, ◌||◌, not, List, [], ◌∷◌, Text, codes, strip, upper, text_eq,
  mem_text, unique, starts_with, is_blank_text, keep, map, if◌then◌else◌, arith, is_empty,
}
use ibkrquant.Execution.Types.{
  owner_accounts_missing, owner_not_single, owner_label_refused, owner_scope_refused, Result, ok,
  raise,
}

-- `_FORBIDDEN_ACCOUNT_OWNER_LABELS`
abbrev pub forbidden_account_owner_labels : List Text
forbidden_account_owner_labels =
    codes "PAPER" ∷ codes "LIVE" ∷ codes "DRY_RUN" ∷ codes "DRY-RUN" ∷ codes "DEFAULT" ∷ []

-- `_normalize_account_owner_ids`, on the ids of a sequence
unfoldable pub normalize_account_owner_ids : List Text → List Text
normalize_account_owner_ids ids = unique (keep (λ t. not (is_blank_text t)) (map strip ids))

-- `part in text`
unfoldable pub has_part : Text → Text → Bool
has_part [] part = is_blank_text part
has_part (c ∷ t) part = starts_with (c ∷ t) part || has_part t part

-- `_is_physical_ibkr_account_id`
unfoldable pub is_physical_ibkr_account_id : Text → Bool
is_physical_ibkr_account_id account_id =
    let value = strip account_id in
    not (is_blank_text value)
    && not (mem_text (upper value) forbidden_account_owner_labels)
    && not (
        mem_text (upper value) (codes "PAPER" ∷ codes "LIVE" ∷ [])
        || has_part (upper value) (codes "GROUP"))

-- `_resolve_execution_account_scope`
unfoldable pub resolve_execution_account_scope : Text → Bool → Text
resolve_execution_account_scope configured dry_run_only =
    if not (is_blank_text (strip configured))
    then strip configured
    else if dry_run_only
    then codes "PAPER"
    else codes "LIVE"

-- the accounts that the fence looks at: the configured ones, or else the snapshot's
unfoldable pub owner_candidates : List Text → List Text → List Text
owner_candidates configured from_snapshot =
    if is_empty (normalize_account_owner_ids configured)
    then normalize_account_owner_ids from_snapshot
    else normalize_account_owner_ids configured

-- the tests on the candidates
abbrev pub only_physical : Text → List Text → Result Text
only_physical scope [] = raise owner_accounts_missing
only_physical scope (a ∷ b ∷ rest) = raise owner_not_single
only_physical scope (a ∷ []) =
    if not (is_physical_ibkr_account_id a)
    then raise owner_label_refused
    else if not (is_blank_text (upper (strip scope)))
        && text_eq (upper (strip a)) (upper (strip scope))
    then raise owner_scope_refused
    else ok a

-- `_resolve_physical_account_id`
unfoldable pub resolve_physical_account_id : List Text → List Text → Text → Result Text
resolve_physical_account_id configured from_snapshot scope =
    only_physical scope (owner_candidates configured from_snapshot)

only_physical_lem :
    (scope : Text) (candidates : List Text) (a : Text)
    → only_physical scope candidates ≡ ok a
    → (candidates ≡ a ∷ [])
      × (is_physical_ibkr_account_id a ≡ true)
      × ((not (is_blank_text (upper (strip scope)))
            && text_eq (upper (strip a)) (upper (strip scope)))
          ≡ false)
only_physical_lem scope [] a h = cc
only_physical_lem scope (b ∷ c ∷ rest) a h = cc
only_physical_lem scope (b ∷ []) a h = ground arith

-- An account that the fence returns is the only candidate, it is no label such as PAPER or the name of
-- a group, and it is not the configured scope.
pub resolve_physical_account_id_lem :
    (configured from_snapshot : List Text) (scope a : Text)
    → resolve_physical_account_id configured from_snapshot scope ≡ ok a
    → (owner_candidates configured from_snapshot ≡ a ∷ [])
      × (is_physical_ibkr_account_id a ≡ true)
      × ((not (is_blank_text (upper (strip scope)))
            && text_eq (upper (strip a)) (upper (strip scope)))
          ≡ false)
unfolding resolve_physical_account_id
resolve_physical_account_id_lem configured from_snapshot scope a h =
    only_physical_lem scope (owner_candidates configured from_snapshot) a h
