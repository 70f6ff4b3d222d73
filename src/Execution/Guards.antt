-- ===== src/Execution/Guards.antt =====
-- application/execution_service.py: the mode of a run, and the checks that stop it before anything is
-- submitted: open orders, fills of the day, and the lock file.
use Prim.Native.Nat.{ℕ}
pub mod Paths
use ibkrquant.Prelude.{
  Bool, true, false, ◌&&◌, ◌||◌, not, List, [], ◌∷◌, ◌++◌, Option, none, some, Text, codes, strip,
  lower, normalize, text_eq, mem_text, unique, sorted, is_blank_text, keep, map, get_or, leb, ◌==◌,
  if◌then◌else◌,
}
use ibkrquant.Execution.Types.{
  dry_run_mode_without_flag, bad_execution_mode, Result, ok, raise, OpenOrder, Fill,
}
use ibkrquant.Execution.Accounts.{normalize_account_ids, matches_account}

-- `_resolve_execution_mode`
abbrev replace_dashes : Text → Text
replace_dashes = map (λ c. if c == b'-' then b'_' else c)

abbrev mode_alias : Text → Text
mode_alias m =
    if mem_text m (codes "dryrun" ∷ codes "dry_run_only" ∷ [])
    then codes "dry_run"
    else if text_eq m (codes "paper_trading")
    then codes "paper"
    else if text_eq m (codes "live_trading")
    then codes "live"
    else m

unfoldable pub resolve_execution_mode : Bool → Option Text → Result Text
unfolding lower strip
resolve_execution_mode true mode = ok (codes "dry_run")
resolve_execution_mode false mode =
    let given = get_or mode (codes "paper") in
    let asked = if is_blank_text given then codes "paper" else given in
    let m = mode_alias (replace_dashes (lower (strip asked))) in
    if text_eq m (codes "dry_run")
    then raise dry_run_mode_without_flag
    else if mem_text m (codes "paper" ∷ codes "live" ∷ [])
    then ok m
    else raise bad_execution_mode

-- `_collect_pending_symbols`
abbrev closed_statuses : List Text
closed_statuses = codes "Cancelled" ∷ codes "ApiCancelled" ∷ codes "Inactive" ∷ codes "Filled" ∷ []

-- the first of the texts that is not blank, stripped
unfoldable pub first_text : List Text → Text
unfolding strip
first_text [] = []
first_text (t ∷ ts) = if is_blank_text (strip t) then first_text ts else strip t

unfoldable pub is_pending_order : List Text → List Text → OpenOrder → Bool
unfolding first_text normalize strip
is_pending_order ids symbols o =
    matches_account (first_text (o.order_account ∷ o.account ∷ [])) ids
    && not (mem_text (strip o.status) closed_statuses)
    && not (is_blank_text (normalize o.symbol))
    && mem_text (normalize o.symbol) symbols

unfoldable pub collect_pending_symbols : List OpenOrder → List Text → List Text → List Text
unfolding is_pending_order
collect_pending_symbols orders symbols ids = sorted (
    unique (
      map (λ o. normalize o.symbol)
        (keep (is_pending_order (normalize_account_ids ids) symbols) orders)))

-- `_extract_fill_date`
abbrev fill_date : Fill → Option Text
fill_date x = elim x.execution_time [ some d ↦ some d | none ↦ x.time ]

abbrev is_date : Text → Option Text → Bool
is_date date none = false
is_date date (some d) = text_eq d date

unfoldable pub is_same_day_fill : List Text → List Text → Text → Fill → Bool
unfolding first_text normalize
is_same_day_fill ids symbols date x =
    matches_account (first_text (x.execution_number ∷ x.execution_account ∷ x.account ∷ [])) ids
    && not (is_blank_text (normalize x.symbol))
    && mem_text (normalize x.symbol) symbols
    && is_date date (fill_date x)

-- `_collect_same_day_filled_symbols`
unfoldable pub collect_same_day_filled_symbols :
    List Fill → List Text → Option Text → List Text → List Text
unfolding is_same_day_fill
collect_same_day_filled_symbols fills symbols none ids = []
collect_same_day_filled_symbols fills symbols (some date) ids = sorted (
    unique (
      map (λ x. normalize x.symbol)
        (keep (is_same_day_fill (normalize_account_ids ids) symbols date) fills)))

-- `_sanitize_token`
abbrev pub safe_char : ℕ → ℕ
safe_char ch =
    if (leb b'0' ch && leb ch b'9')
      || (leb b'A' ch && leb ch b'Z')
      || (leb b'a' ch && leb ch b'z')
      || (ch == b'-' || ch == b'_' || ch == b'.')
    then ch
    else b'_'

unfoldable pub sanitize_token : Text → Text
unfolding strip
sanitize_token value =
    if is_blank_text (strip value) then codes "none" else map safe_char (strip value)

abbrev pub join : Text → List Text → Text
join sep [] = []
join sep (t ∷ []) = t
join sep (t ∷ u ∷ ts) = t ++ sep ++ join sep (u ∷ ts)

abbrev pub or_default : Option Text → Text → Text
or_default value default =
    let given = get_or value default in if is_blank_text given then default else given

-- What names a lock file.
pub record LockScope : Type 0 where
  pub account_group : Option Text
  pub service_name : Option Text
  pub strategy_profile : Option Text
  pub execution_mode : Text
  pub trade_date : Option Text
  pub snapshot_date : Option Text

-- the list that `_resolve_execution_lock_path` joins
unfoldable pub lock_tokens : LockScope → List Text
lock_tokens l =
    sanitize_token (or_default l.account_group (codes "default"))
    ∷ sanitize_token (or_default l.service_name (codes "service"))
    ∷ sanitize_token (or_default l.strategy_profile (codes "unknown"))
    ∷ sanitize_token l.execution_mode
    ∷ sanitize_token (get_or l.trade_date [])
    ∷ sanitize_token (or_default l.snapshot_date (codes "no_snapshot"))
    ∷ []

-- `_resolve_execution_lock_path`, inside the lock directory
unfoldable pub resolve_execution_lock_path : LockScope → Text
unfolding lock_tokens
resolve_execution_lock_path l = join (codes "__") (lock_tokens l) ++ codes ".json"
