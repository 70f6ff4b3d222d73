-- ===== src/Execution/Guards/Paths.antt =====
-- application/execution_service.py: the names of the lock files, and the execution modes.
use ibkrquant.Prelude.{
  ℕ, ◌≡◌, refl, Bool, true, false, List, [], ◌∷◌, ◌++◌, Text, codes, All, All-append, map, strip,
  ◌==◌, inl, inr, ◌⊎◌, is_blank_text, if◌then◌else◌, arith, Option, text_eq, text_eq_iff, mem_text,
}
use ibkrquant.Execution.Types.{ok, raise, dry_run_mode_without_flag, bad_execution_mode}
use ibkrquant.Execution.Guards.{
  sanitize_token, safe_char, join, LockScope, lock_tokens, resolve_execution_lock_path,
  resolve_execution_mode,
}

-- A character that separates no directories.
abbrev pub IsPlain : ℕ → Type 0
IsPlain c = (c == b'/') ≡ false

safe_char-IsPlain : (c : ℕ) → IsPlain (safe_char c)
safe_char-IsPlain c = ground arith

map-IsPlain : (t : Text) → All IsPlain (map safe_char t)
map-IsPlain [] = tt
map-IsPlain (c ∷ t) = (safe_char-IsPlain c, map-IsPlain t)

token-IsPlain : (b : Bool) (t : Text) → All IsPlain (if b then codes "none" else map safe_char t)
token-IsPlain true t = (refl, (refl, (refl, (refl, tt))))
token-IsPlain false t = map-IsPlain t

sanitize_token-IsPlain : (t : Text) → All IsPlain (sanitize_token t)
unfolding sanitize_token
sanitize_token-IsPlain t = token-IsPlain (is_blank_text (strip t)) (strip t)

join-IsPlain : (ts : List Text) → All (All IsPlain) ts → All IsPlain (join (codes "__") ts)
join-IsPlain [] h = tt
join-IsPlain (t ∷ []) h = h.0
join-IsPlain (t ∷ u ∷ ts) h =
    All-append IsPlain (t ++ codes "__") (join (codes "__") (u ∷ ts))
      (All-append IsPlain t (codes "__") h.0 (refl, (refl, tt))) (join-IsPlain (u ∷ ts) h.1)

lock_tokens-IsPlain : (l : LockScope) → All (All IsPlain) (lock_tokens l)
unfolding lock_tokens
lock_tokens-IsPlain l = (
  sanitize_token-IsPlain _,
  (
    sanitize_token-IsPlain _,
    (
      sanitize_token-IsPlain _,
      (sanitize_token-IsPlain _, (sanitize_token-IsPlain _, (sanitize_token-IsPlain _, tt))),
    ),
  ),
)

-- The name of a lock file holds no slash, whatever the account group, the service, the profile, the mode
-- and the dates are: the file is in the lock directory.
pub resolve_execution_lock_path-IsPlain :
    (l : LockScope) → All IsPlain (resolve_execution_lock_path l)
unfolding resolve_execution_lock_path
resolve_execution_lock_path-IsPlain l =
    All-append IsPlain (join (codes "__") (lock_tokens l)) (codes ".json")
      (join-IsPlain (lock_tokens l) (lock_tokens-IsPlain l))
      (refl, (refl, (refl, (refl, (refl, tt)))))

-- the last tests of the function, on the mode asked for
paper_or_live :
    (m mode : Text)
    → (if text_eq m (codes "dry_run")
        then raise dry_run_mode_without_flag
        else if mem_text m (codes "paper" ∷ codes "live" ∷ [])
        then ok m
        else raise bad_execution_mode)
      ≡ ok mode
    → (mode ≡ codes "paper") ⊎ (mode ≡ codes "live")
unfolding mem_text
paper_or_live m mode h = ground (arith, text_eq_iff m (codes "paper"), text_eq_iff m (codes "live"))

-- The mode of a run is the dry run exactly when the flag asks for it, and otherwise paper or live.
pub resolve_execution_mode_lem :
    (dry_run_only : Bool) (given : Option Text) (mode : Text)
    → resolve_execution_mode dry_run_only given ≡ ok mode
    → ((dry_run_only ≡ true) × (mode ≡ codes "dry_run"))
      ⊎ ((dry_run_only ≡ false) × ((mode ≡ codes "paper") ⊎ (mode ≡ codes "live")))
unfolding resolve_execution_mode
resolve_execution_mode_lem true given mode h = inl (refl, cc)
resolve_execution_mode_lem false given mode h = inr (refl, paper_or_live _ mode h)
