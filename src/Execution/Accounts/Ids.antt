-- ===== src/Execution/Accounts/Ids.antt =====
-- application/execution_service.py: the account ids that a run selects.
use ibkrquant.Prelude.{
  ◌≡◌, refl, false, ◌&&◌, not, List, [], ◌∷◌, Text, mem_text, text_eq_iff, text_eq_refl, unique,
  unique_from, keep, map, strip, is_blank_text, arith,
}
use ibkrquant.Execution.Accounts.{normalize_account_ids}

-- No text occurs twice.
abbrev pub Distinct : List Text → Type 0
Distinct [] = Unit
Distinct (t ∷ ts) = (mem_text t ts ≡ false) × Distinct ts

mem_text-unique_from :
    (x : Text) (seen ts : List Text)
    → mem_text x (unique_from seen ts) ≡ (mem_text x ts && not (mem_text x seen))
unfolding mem_text unique_from
mem_text-unique_from x seen [] = refl
mem_text-unique_from x seen (t ∷ ts) =
    ground (arith, mem_text-unique_from x (t ∷ seen) ts, text_eq_iff x t)

unique_from-Distinct : (seen ts : List Text) → Distinct (unique_from seen ts)
unfolding mem_text unique_from
unique_from-Distinct seen [] = tt
unique_from-Distinct seen (t ∷ ts) =
    let rest = unique_from-Distinct (t ∷ seen) ts in
    let fresh = mem_text-unique_from t (t ∷ seen) ts in ground (arith, rest, fresh, text_eq_refl t)

mem_text-keep :
    (x : Text) (ts : List Text)
    → mem_text x (keep (λ t. not (is_blank_text t)) ts) ≡ (mem_text x ts && not (is_blank_text x))
unfolding mem_text
mem_text-keep x [] = refl
mem_text-keep x (t ∷ ts) = ground (arith, mem_text-keep x ts, text_eq_iff x t)

-- The account ids of a run are the given ids without surrounding blanks, the blank ones left out, and
-- none of them is there twice.
pub normalize_account_ids_lem :
    (ids : List Text)
    → Distinct (normalize_account_ids ids)
      × ((x : Text)
          → mem_text x (normalize_account_ids ids)
            ≡ (mem_text x (map strip ids) && not (is_blank_text x)))
unfolding normalize_account_ids unique mem_text
normalize_account_ids_lem ids = (
  unique_from-Distinct [] _,
  λ x. ground (
    arith,
    mem_text-unique_from x [] (keep (λ t. not (is_blank_text t)) (map strip ids)),
    mem_text-keep x (map strip ids),
  ),
)
