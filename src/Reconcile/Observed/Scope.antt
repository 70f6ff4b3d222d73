-- ===== src/Reconcile/Observed/Scope.antt =====
-- application/broker_reconciliation.py: the observations are those of the selected accounts.
use ibkrquant.Prelude.{
  ◌≡◌, refl, sym, ap, ◌∙◌, Bool, true, false, not, List, [], ◌∷◌, Option, none, some, Text, codes,
  strip, strip-strip, upper, ◌||◌, text_eq, text_eq_iff, some-injective, lookup, mem_text, keep,
  length, is_blank_text, All, Dict, arith,
}
use mathlib.Core.Path.{subst}
use ibkrquant.Reconcile.Checked.{Checked, ok, >>=-ok, require-ok, ok-injective}
use ibkrquant.Reconcile.Observed.{
  Position, PositionRecord, stock, option, OptionPosition, Cell, CashRecord, OpenTrade, OrderRecord,
  ExecutionRecord, number, account_in_scope, normalise_position, normalise_option_position, text_at,
  numeric_tags, first_tag, cash_record, cash_balance_tag_priority, normalise_cash_balance,
  open_trade_account, order_record, execution_record,
}
use ibkrquant.Reconcile.Observed.Surfaces.{when_within, normalise_within, normalise_all}

account_in_scope-mem :
    (account : Text) (selected : List Text) (surface : Text) (b : Bool)
    → account_in_scope account selected surface ≡ ok b
    → b ≡ mem_text (strip account) selected
unfolding account_in_scope
account_in_scope-mem account selected surface b h =
    let (_, h1) = require-ok (not (is_blank_text (strip account))) _ _ b h in
    sym (ok-injective (mem_text (strip account) selected) b h1)

module _ {A R : Type 0} (account : A → Text) (normalise : A → Checked R) (surface : Text)
    (selected : List Text) where
  -- Where each record has what a selected account's record has, so have all that are kept, and there are
  -- as many as there are items of selected accounts.
  pub normalise_within-All :
      (P : R → Type 0) (xs : List A) (rs : List R)
      → ((x : A) (r : R) → mem_text (strip (account x)) selected ≡ true → normalise x ≡ ok r → P r)
      → normalise_within account normalise surface selected xs ≡ ok rs
      → All P rs × (length rs ≡ length (keep (λ x. mem_text (strip (account x)) selected) xs))
  unfolding normalise_within
  normalise_within-All P [] rs one h =
      subst (λ l. All P l × (length l ≡ 0)) (ok-injective [] rs h) (tt, refl)
  normalise_within-All P (x ∷ xs) rs one h =
      let (b, scoped, h1) = >>=-ok (account_in_scope (account x) selected surface) _ rs h in
      go b rs (account_in_scope-mem (account x) selected surface b scoped) h1 (λ r e. one x r e)
        (λ l e. normalise_within-All P xs l one e)
    where
      go :
          (b : Bool) (l : List R)
          → b ≡ mem_text (strip (account x)) selected
          → when_within b (normalise x) (normalise_within account normalise surface selected xs)
            ≡ ok l
          → ((r : R) → mem_text (strip (account x)) selected ≡ true → normalise x ≡ ok r → P r)
          → ((t : List R)
              → normalise_within account normalise surface selected xs ≡ ok t
              → All P t
                × (length t ≡ length (keep (λ y. mem_text (strip (account y)) selected) xs)))
          → All P l
            × (length l ≡ length (keep (λ y. mem_text (strip (account y)) selected) (x ∷ xs)))
      go true l e h one later =
          let (r, made, h1) = >>=-ok (normalise x) _ l h in
          let (t, rest, h2) =
            >>=-ok (normalise_within account normalise surface selected xs) _ l h1 in
          let (all_t, count) = later t rest in
          let p = one r (sym e) made in
          subst
            (λ m.
              All P m
              × (length m ≡ length (keep (λ y. mem_text (strip (account y)) selected) (x ∷ xs))))
            (ok-injective (r ∷ t) l h2) ((p, all_t), ground (arith, count))
      go false l e h one later = let (all_l, count) = later l h in (all_l, ground (arith, count))

pub normalise_all-All :
    {A R : Type 0} (f : A → Checked R) (P : R → Type 0) (xs : List A) (rs : List R)
    → ((x : A) (r : R) → f x ≡ ok r → P r)
    → normalise_all f xs ≡ ok rs
    → All P rs
unfolding normalise_all
normalise_all-All f P [] rs one h = subst (All P) (ok-injective [] rs h) tt
normalise_all-All f P (x ∷ xs) rs one h =
    let (r, made, h1) = >>=-ok (f x) _ rs h in
    let (t, rest, h2) = >>=-ok (normalise_all f xs) _ rs h1 in
    subst (All P) (ok-injective (r ∷ t) rs h2) (one x r made, normalise_all-All f P xs t one rest)

-- an account is one of the selected
abbrev pub IsSelected : List Text → Text → Type 0
IsSelected selected account = mem_text account selected ≡ true

-- a record of an option is one of a selected account
abbrev pub OptionIsSelected : {F : Type 0} → List Text → PositionRecord F → Type 0
OptionIsSelected selected (stock s q c cur) = Unit {0}
OptionIsSelected selected (option a u l e r s q c cur) = IsSelected selected a

module _ {F : Type 0} where
  pub order_record-account :
      (t : OpenTrade F) (r : OrderRecord F)
      → order_record t ≡ ok r
      → r.account ≡ strip (open_trade_account t)
  order_record-account t r h = ground arith

  pub execution_record-account :
      (account : Text) (e : _) (c : _) (r : ExecutionRecord F)
      → execution_record account e c ≡ ok r
      → r.account ≡ account
  execution_record-account account none c r h = cc
  execution_record-account account (some e) none r h = cc
  execution_record-account account (some e) (some c) r h = ground arith

  pub normalise_position-stock :
      (selected : List Text) (p : Position F) (r : PositionRecord F)
      → normalise_position p ≡ ok r
      → OptionIsSelected selected r
  unfolding normalise_position
  normalise_position-stock selected p r h =
      let (q, _, h1) = >>=-ok (number p.quantity (codes "position quantity")) _ r h in
      let (c, _, h2) = >>=-ok (number p.average_cost (codes "position average cost")) _ r h1 in
      subst (OptionIsSelected selected)
        (ok-injective (stock (upper (strip p.symbol)) q c (upper (strip p.currency))) r h2) tt

  pub normalise_option_position-selected :
      (selected : List Text) (p : OptionPosition F) (r : PositionRecord F)
      → normalise_option_position selected p ≡ ok r
      → OptionIsSelected selected r
  unfolding normalise_option_position
  normalise_option_position-selected selected p r h =
      let (b, scoped, h1) =
        >>=-ok (account_in_scope p.account_id selected (codes "option position")) _ r h in
      let (within, h2) = require-ok b _ _ r h1 in
      let (s, _, h3) = >>=-ok (number p.strike (codes "option strike")) _ r h2 in
      let (q, _, h4) = >>=-ok (number p.quantity (codes "option quantity")) _ r h3 in
      let (c, _, h5) = >>=-ok (number p.average_cost (codes "option average cost")) _ r h4 in
      subst (OptionIsSelected selected) (ok-injective _ r h5) (
        sym (account_in_scope-mem p.account_id selected (codes "option position") b scoped)
        ∙ within)

  -- The tag of a record is one of those that stand for a balance.
  abbrev pub IsBalance : List Text → CashRecord F → Type 0
  IsBalance selected r =
      IsSelected selected r.account × (mem_text r.tag cash_balance_tag_priority ≡ true)

  first_tag-mem :
      (tags : List Text) (d : Dict F) (t : Text) (x : F)
      → first_tag tags d ≡ some (t, x)
      → mem_text t tags ≡ true
  unfolding first_tag mem_text
  first_tag-mem [] d t x h = cc
  first_tag-mem (tag ∷ tags) d t x h = go (lookup tag d) h (first_tag-mem tags d t x)
    where
      go :
          (o : Option F)
          → (elim o [ some y ↦ some (tag, y) | none ↦ first_tag tags d ]) ≡ some (t, x)
          → (first_tag tags d ≡ some (t, x) → mem_text t tags ≡ true)
          → (text_eq t tag || mem_text t tags) ≡ true
      go none e later = ground (arith, later e)
      go (some y) e later =
          let same : tag ≡ t = ap (λ p. p.0) (some-injective (tag, y) (t, x) e) in
          ground (arith, (text_eq_iff t tag).1 (sym same))

  cash_record-IsBalance :
      (selected : List Text) (account currency : Text) (o : Option (Text × F)) (r : CashRecord F)
      → IsSelected selected account
      → ((t : Text) (x : F) → o ≡ some (t, x) → mem_text t cash_balance_tag_priority ≡ true)
      → cash_record account currency o ≡ ok r
      → IsBalance selected r
  cash_record-IsBalance selected account currency none r e m h = cc
  cash_record-IsBalance selected account currency (some (t, x)) r e m h =
      subst (IsBalance selected)
        (ok-injective (record { account = account; currency = currency; tag = t; amount = x }) r h)
        (e, m t x refl)

  pub normalise_cash_balance-IsBalance :
      (selected : List Text) (d : Dict (Cell F)) (r : CashRecord F)
      → normalise_cash_balance selected d ≡ ok r
      → IsBalance selected r
  unfolding normalise_cash_balance
  normalise_cash_balance-IsBalance selected d r h =
      let account = strip (text_at (codes "account_id") d) in
      let (b, scoped, h1) = >>=-ok (account_in_scope account selected (codes "cash")) _ r h in
      let (within, h2) = require-ok b _ _ r h1 in
      let (tags, _, h3) = >>=-ok (numeric_tags [] d) _ r h2 in
      let in_scope : IsSelected selected account =
        subst (IsSelected selected) (strip-strip (text_at (codes "account_id") d))
          (sym (account_in_scope-mem account selected (codes "cash") b scoped) ∙ within) in
      cash_record-IsBalance selected account (upper (strip (text_at (codes "currency") d)))
        (first_tag cash_balance_tag_priority tags) r in_scope
        (first_tag-mem cash_balance_tag_priority tags) h3
