-- ===== src/Reconcile/Sources/Order.antt =====
-- application/broker_reconciliation_candidate.py: the order of the records' keys, and sorting by it.
use ibkrquant.Prelude.{
  ◌≡◌, refl, sym, ap, ◌∙◌, ◌↔◌, Bool, true, false, List, [], ◌∷◌, map, text_eq_iff, if◌then◌else◌,
  suc, length, text_leb-total, text_leb_antisymm, text_leb_trans, All, arith,
}
use mathlib.Core.List.{foldr, Perm}
use mathlib.Core.List.Perm
use ibkrquant.Reconcile.Sources.Records.{Key, key_eq, key_leb, insert_by, sort_by}

pub key_eq_iff : (a b : Key) → (key_eq a b ≡ true) ↔ (a ≡ b)
unfolding key_eq
key_eq_iff (a, r) (b, s) = ground (arith, text_eq_iff a b, text_eq_iff r s)

key_leb-total : (a b : Key) → key_leb a b ≡ false → key_leb b a ≡ true
unfolding key_leb
key_leb-total (a, r) (b, s) h =
    ground (arith, text_eq_iff a b, text_eq_iff b a, text_leb-total a b, text_leb-total r s)

key_leb_antisymm : (a b : Key) → key_leb a b ≡ true → key_leb b a ≡ true → a ≡ b
unfolding key_leb
key_leb_antisymm (a, r) (b, s) h k =
    ground (arith, text_eq_iff a b, text_eq_iff b a, text_leb_antisymm a b, text_leb_antisymm r s)

key_leb_trans : (a b c : Key) → key_leb a b ≡ true → key_leb b c ≡ true → key_leb a c ≡ true
unfolding key_leb
key_leb_trans (a, r) (b, s) (c, t) h k = ground (
  arith,
  text_eq_iff a b,
  text_eq_iff b c,
  text_eq_iff a c,
  text_leb_trans a b c,
  text_leb_antisymm a b,
  text_leb_antisymm b c,
  text_leb_trans r s t,
)

abbrev insert_key : Key → List Key → List Key
insert_key = insert_by (λ k. k)

insert_key_comm :
    (a b : Key) (ks : List Key) → insert_key a (insert_key b ks) ≡ insert_key b (insert_key a ks)
unfolding insert_by
insert_key_comm a b [] = ground (arith, key_leb-total a b, key_leb-total b a, key_leb_antisymm a b)
insert_key_comm a b (c ∷ ks) = ground (
  arith,
  key_leb-total a b,
  key_leb-total b a,
  key_leb_antisymm a b,
  key_leb_trans a b c,
  key_leb_trans b a c,
  key_leb-total a c,
  key_leb-total b c,
  key_leb_trans a c b,
  key_leb_trans b c a,
  insert_key_comm a b ks,
)

sort-foldr : (ks : List Key) → sort_by (λ k. k) ks ≡ foldr insert_key [] ks
unfolding sort_by
sort-foldr [] = refl
sort-foldr (k ∷ ks) = ap (insert_key k) (sort-foldr ks)

-- Sorting forgets the order.
pub sort-perm : (ks js : List Key) → Perm ks js → sort_by (λ k. k) ks ≡ sort_by (λ k. k) js
sort-perm ks js p =
    sort-foldr ks ∙ Perm.foldr-eq (hlevel) insert_key insert_key_comm p [] ∙ sym (sort-foldr js)

module _ {ℓ} {A : Type ℓ} (key : A → Key) where
  insert_by-All {κ} :
      (P : A → Type κ) (a : A) (as' : List A) → P a → All P as' → All P (insert_by key a as')
  unfolding insert_by
  insert_by-All P a [] h hs = (h, tt)
  insert_by-All P a (b ∷ bs) h hs = go (key_leb (key a) (key b)) (insert_by-All P a bs h hs.1)
    where
      go :
          (t : Bool)
          → All P (insert_by key a bs)
          → All P (if t then a ∷ b ∷ bs else b ∷ insert_by key a bs)
      go true r = (h, hs)
      go false r = (hs.0, r)

  pub sort_by-All {κ} : (P : A → Type κ) (as' : List A) → All P as' → All P (sort_by key as')
  unfolding sort_by
  sort_by-All P [] hs = tt
  sort_by-All P (a ∷ as') hs = insert_by-All P a (sort_by key as') hs.0 (sort_by-All P as' hs.1)

  length-insert_by : (a : A) (as' : List A) → length (insert_by key a as') ≡ suc (length as')
  unfolding insert_by
  length-insert_by a [] = refl
  length-insert_by a (b ∷ bs) = ground (arith, length-insert_by a bs)

  pub length-sort_by : (as' : List A) → length (sort_by key as') ≡ length as'
  unfolding sort_by
  length-sort_by [] = refl
  length-sort_by (a ∷ as') = length-insert_by a (sort_by key as') ∙ ap suc (length-sort_by as')

module _ {ℓ} {A : Type ℓ} (key : A → Key) (f : Key → A) where
  insert_by-map :
      (k : Key) (ks : List Key)
      → key (f k) ≡ k
      → All (λ j. key (f j) ≡ j) ks
      → insert_by key (f k) (map f ks) ≡ map f (insert_key k ks)
  unfolding insert_by
  insert_by-map k [] e es = refl
  insert_by-map k (j ∷ js) e es = rw (e, es.0) (go (key_leb k j) (insert_by-map k js e es.1))
    where
      go :
          (b : Bool)
          → insert_by key (f k) (map f js) ≡ map f (insert_key k js)
          → (if b then f k ∷ f j ∷ map f js else f j ∷ insert_by key (f k) (map f js))
            ≡ map f (if b then k ∷ j ∷ js else j ∷ insert_key k js)
      go true h = refl
      go false h = ap (λ l. f j ∷ l) h

  -- Where the keys of the values are the keys they were made of, sorting the values is sorting the keys.
  pub sort_by-map :
      (ks : List Key)
      → All (λ j. key (f j) ≡ j) ks
      → sort_by key (map f ks) ≡ map f (sort_by (λ k. k) ks)
  unfolding sort_by
  sort_by-map [] es = refl
  sort_by-map (k ∷ ks) es =
      ap (insert_by key (f k)) (sort_by-map ks es.1)
      ∙ insert_by-map k (sort_by (λ j. j) ks) es.0
          (sort_by-All (λ j. j) (λ j. key (f j) ≡ j) ks es.1)
