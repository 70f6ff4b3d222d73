-- ===== src/Execution/Orders/Spending.antt =====
-- application/execution_service.py, `execute_rebalance`: what the loop over the purchases spends.
use ibkrquant.Prelude.{
  ◌≡◌, refl, sym, ◌∙◌, ap, Bool, true, false, List, [], ◌∷◌, ◌++◌, Option, none, some,
  some-injective, Text, strip, Dict, if◌then◌else◌, arith,
}
use mathlib.Core.List.{append-nil, append_assoc}
use mathlib.Core.Path.{subst}
use ibkrquant.Execution.Outcome.{is_failed, classify, record_order_outcome}
use ibkrquant.Number.{Float, IsFloat, ◌⊖◌, ◌⊗◌, ◌≼◌, ◌≺◌, nought, min}
use ibkrquant.Execution.Types.{Error, Report, Intent, Result, ok, raise}
use ibkrquant.Execution.Sizing.{value_of}
use ibkrquant.Execution.Plan.{Cycle}
use ibkrquant.Execution.Run.{
  Run, Action, next, pure, update, ◌>>=◌, submit_claimed_order, acquired, granted, delegate_submit,
}
use ibkrquant.Execution.Orders.{
  Desk, BuyTurn, enough, below_minimum, no_money, buy, limit_buy, record_report, submit_buy,
  report_buy, buy_turn, buy_act, buy_loop,
}

module _ {F : Type 0} ⦃f : Float F⦄ (c : Cycle F) where
  -- A turn buys only what is underweight by more than the threshold; the order costs no more than the
  -- power left, its quantity is positive, and the value it is sized for reaches the minimum notional.
  pub buy_turn-buy :
      (power : F) (symbol : Text) (target limit quantity : F)
      → buy_turn c power symbol target ≡ buy limit quantity
      → ((value_of symbol c.terms.current_mv ≺ target ⊖ c.terms.threshold) ≡ true)
        × ((power ≺ quantity ⊗ limit) ≡ false)
        × ((quantity ≼ nought) ≡ false)
        × ((min (target ⊖ value_of symbol c.terms.current_mv) (power ⊗ f.lit 95 2)
              ≺ c.terms.minimum_order_notional)
            ≡ false)
  unfolding buy_turn
  buy_turn-buy power symbol target limit quantity h = ground arith

ok-injective : {A : Type 0} (a b : A) → ok a ≡ ok b → a ≡ b
ok-injective a b h = ap (λ r. elim r [ ok x ↦ x | raise e ↦ a ]) h

-- From the broker's session and the power that there are, the orders that are sent one after another, and
-- the session and the power at the end, or none where an exception ends it. Each order is claimed and
-- costs no more than what is left before it; its cost is taken from that, unless the broker's report of it is
-- one of a failure.
pub data Affords {F S : Type 0} ⦃f : Float F⦄ (desk : Desk F S)
    : S → F → List (Intent F) → Option (S × F) → Type 0 where
  nothing : {s : S} {p : F} → Affords desk s p [] (some (s, p))
  stopped : {s : S} {p : F} → Affords desk s p [] none
  spent :
      {s s₁ s₂ : S} {p limit : F} {i : Intent F} {report : Report F} {is : List (Intent F)}
      {e : Option (S × F)} {acquire : S → Result Bool × S}
      → desk.broker.claim ≡ some acquire
      → acquire s ≡ (ok true, s₁)
      → desk.broker.submit i s₁ ≡ (ok report, s₂)
      → is_failed (classify (strip report.status)) ≡ false
      → i.limit_price ≡ some limit
      → (p ≺ i.quantity ⊗ limit) ≡ false
      → Affords desk s₂ (p ⊖ i.quantity ⊗ limit) is e
      → Affords desk s p (i ∷ is) e
  kept :
      {s s₁ s₂ : S} {p limit : F} {i : Intent F} {report : Report F} {is : List (Intent F)}
      {e : Option (S × F)} {acquire : S → Result Bool × S}
      → desk.broker.claim ≡ some acquire
      → acquire s ≡ (ok true, s₁)
      → desk.broker.submit i s₁ ≡ (ok report, s₂)
      → is_failed (classify (strip report.status)) ≡ true
      → i.limit_price ≡ some limit
      → (p ≺ i.quantity ⊗ limit) ≡ false
      → Affords desk s₂ p is e
      → Affords desk s p (i ∷ is) e
  lost :
      {s s₁ s₂ : S} {p limit : F} {i : Intent F} {err : Error} {acquire : S → Result Bool × S}
      → desk.broker.claim ≡ some acquire
      → acquire s ≡ (ok true, s₁)
      → desk.broker.submit i s₁ ≡ (raise err, s₂)
      → i.limit_price ≡ some limit
      → (p ≺ i.quantity ⊗ limit) ≡ false
      → Affords desk s p (i ∷ []) none

-- What an action that starts with the power `p` sent, and that its result is the power left.
pub record Spends {F S : Type 0} ⦃f : Float F⦄ (desk : Desk F S) (r : Run F S) (p : F)
    (res : Result F × Run F S) : Type 0 where
  pub orders : List (Intent F)
  pub ending : Option (S × F)
  pub sent : res.1.world.sent ≡ r.world.sent ++ orders
  pub affords : Affords desk r.world.session p orders ending
  pub ends : (q : F) → res.0 ≡ ok q → ending ≡ some (res.1.world.session, q)

module _ {F S : Type 0} ⦃f : Float F⦄ (desk : Desk F S) where
  Affords-append :
      {s s' : S} {p q : F} {is js : List (Intent F)} {m e : Option (S × F)}
      → Affords desk s p is m
      → m ≡ some (s', q)
      → Affords desk s' q js e
      → Affords desk s p (is ++ js) e
  Affords-append {s'} {q} {js} {e} (Affords.nothing {s} {p}) same h =
      subst (λ x. Affords desk x.0 x.1 js e) (sym (some-injective (s, p) (s', q) same)) h
  Affords-append Affords.stopped same h = cc
  Affords-append (Affords.spent a b c d l v g) same h =
      Affords.spent a b c d l v (Affords-append g same h)
  Affords-append (Affords.kept a b c d l v g) same h =
      Affords.kept a b c d l v (Affords-append g same h)
  Affords-append (Affords.lost a b c l v) same h = cc

module _ {F S : Type 0} ⦃f : Float F⦄ (desk : Desk F S) where
  idle :
      (r s : Run F S) (p : F)
      → s.world.sent ≡ r.world.sent
      → s.world.session ≡ r.world.session
      → Spends desk r p (ok p, s)
  idle r s p e same = record {
    orders = [];
    ending = some (r.world.session, p);
    sent = e ∙ sym (append-nil _);
    affords = Affords.nothing;
    ends = λ q h.
        ap (λ x. some (x, p)) (sym same) ∙ ap (λ x. some (s.world.session, x)) (ok-injective p q h);
  }

  raised :
      (r s : Run F S) (p : F) (e : Error)
      → s.world.sent ≡ r.world.sent
      → Spends desk r p (raise e, s)
  raised r s p err e = record {
    orders = [];
    ending = none;
    sent = e ∙ sym (append-nil _);
    affords = Affords.stopped;
    ends = λ q h. cc;
  }

  if-Spends :
      (run : Run F S) (p : F) (b : Bool) (x y : Action F S F)
      → b ≡ false
      → Spends desk run p (y run)
      → Spends desk run p ((if b then x else y) run)
  if-Spends run p true x y e h = cc
  if-Spends run p false x y e h = h

  next-Spends :
      {r s : Run F S} {p : F} (res : Result F) {k : F → Action F S F}
      → Spends desk r p (res, s)
      → ((q : F) (t : Run F S) → Spends desk t q (k q t))
      → Spends desk r p (next res k s)
  next-Spends (raise e) h g = record {
    orders = h.orders;
    ending = h.ending;
    sent = h.sent;
    affords = h.affords;
    ends = λ q h. cc;
  }
  next-Spends {r} {s} (ok q) h g =
      let n = g q s in
      record {
        orders = h.orders ++ n.orders;
        ending = n.ending;
        sent =
            n.sent ∙ ap (λ xs. xs ++ n.orders) h.sent ∙ append_assoc r.world.sent h.orders n.orders;
        affords = Affords-append desk h.affords (h.ends q refl) n.affords;
        ends = n.ends;
      }

module _ {F S : Type 0} ⦃f : Float F⦄ (desk : Desk F S) (symbol : Text) (limit quantity p : F)
    (covered : (p ≺ quantity ⊗ limit) ≡ false) (run : Run F S) (acquire : S → Result Bool × S)
    (claimed : desk.broker.claim ≡ some acquire) (s₁ : S)
    (is_granted : acquire run.world.session ≡ (ok true, s₁)) where
  abbrev order : Intent F
  order = limit_buy desk symbol limit quantity

  after_outcome :
      (report : Report F) (s : Run F S)
      → s.world.sent ≡ run.world.sent ++ order ∷ []
      → desk.broker.submit order s₁ ≡ (ok report, s.world.session)
      → (failed : Bool) → is_failed (classify (strip report.status)) ≡ failed
      → Spends desk run p (ok (if failed then p else p ⊖ quantity ⊗ limit), s)
  after_outcome report s e submitted true outcome = record {
    orders = order ∷ [];
    ending = some (s.world.session, p);
    sent = e;
    affords = Affords.kept claimed is_granted submitted outcome refl covered Affords.nothing;
    ends = λ q h. ap (λ x. some (s.world.session, x)) (ok-injective p q h);
  }
  after_outcome report s e submitted false outcome = record {
    orders = order ∷ [];
    ending = some (s.world.session, p ⊖ quantity ⊗ limit);
    sent = e;
    affords = Affords.spent claimed is_granted submitted outcome refl covered Affords.nothing;
    ends = λ q h. ap (λ x. some (s.world.session, x)) (ok-injective (p ⊖ quantity ⊗ limit) q h);
  }

  after_submit :
      (res : Result (Report F)) (s : Run F S)
      → s.world.sent ≡ run.world.sent ++ order ∷ []
      → desk.broker.submit order s₁ ≡ (res, s.world.session)
      → Spends desk run p (next res (report_buy desk symbol limit quantity p) s)
  unfolding report_buy ◌>>=◌ pure record_report record_order_outcome
  after_submit (ok report) s e submitted = after_outcome report _ e submitted _ refl
  after_submit (raise err) s e submitted = record {
    orders = order ∷ [];
    ending = none;
    sent = e;
    affords = Affords.lost claimed is_granted submitted refl covered;
    ends = λ q h. cc;
  }

module _ {F S : Type 0} ⦃f : Float F⦄ (desk : Desk F S) (symbol : Text) (limit quantity p : F)
    (covered : (p ≺ quantity ⊗ limit) ≡ false) (run : Run F S) where
  granted-Spends :
      (acquire : S → Result Bool × S)
      → desk.broker.claim ≡ some acquire
      → (grant : Result Bool) (s : S) → acquire run.world.session ≡ (grant, s)
      → Spends desk run p (
          next
            (granted desk.broker
              (limit_buy desk symbol limit quantity)
              grant
              (record run { world = record run.world { session = s } })).0
            (report_buy desk symbol limit quantity p)
            (granted desk.broker
              (limit_buy desk symbol limit quantity)
              grant
              (record run { world = record run.world { session = s } })).1)
  unfolding granted delegate_submit
  granted-Spends acquire claimed (ok true) s e =
      after_submit desk symbol limit quantity p covered run acquire claimed s e _ _ refl refl
  granted-Spends acquire claimed (ok false) s e = raised desk run _ p _ refl
  granted-Spends acquire claimed (raise err) s e = raised desk run _ p _ refl

  acquired-Spends :
      (claim : Option (S → Result Bool × S))
      → desk.broker.claim ≡ claim
      → Spends desk run p (
          next
            (acquired desk.broker (limit_buy desk symbol limit quantity) claim run).0
            (report_buy desk symbol limit quantity p)
            (acquired desk.broker (limit_buy desk symbol limit quantity) claim run).1)
  unfolding acquired
  acquired-Spends none e = raised desk run run p _ refl
  acquired-Spends (some acquire) e =
      granted-Spends acquire e (acquire run.world.session).0 (acquire run.world.session).1 refl

  submit_buy-Spends : Spends desk run p (submit_buy desk symbol limit quantity p run)
  unfolding submit_buy submit_claimed_order ◌>>=◌
  submit_buy-Spends = acquired-Spends desk.broker.claim refl

module _ {F S : Type 0} ⦃f : Float F⦄ (desk : Desk F S) (live : desk.dry_run_only ≡ false) where
  buy_act-Spends :
      (c : Cycle F) (symbol : Text) (target p : F) (t : BuyTurn F)
      → buy_turn c p symbol target ≡ t
      → (run : Run F S) → Spends desk run p (buy_act desk symbol t p run)
  unfolding buy_act pure update ◌>>=◌
  buy_act-Spends c symbol target p enough e run = idle desk run _ p refl refl
  buy_act-Spends c symbol target p BuyTurn.no_price e run = idle desk run _ p refl refl
  buy_act-Spends c symbol target p below_minimum e run = idle desk run _ p refl refl
  buy_act-Spends c symbol target p BuyTurn.no_quantity e run = idle desk run _ p refl refl
  buy_act-Spends c symbol target p no_money e run = idle desk run _ p refl refl
  buy_act-Spends c symbol target p (buy limit quantity) e run =
      if-Spends desk run p desk.dry_run_only _ _ live (
        submit_buy-Spends desk symbol limit quantity p
          (buy_turn-buy c p symbol target limit quantity e).1 run)

  -- In a live run, the orders of the loop over the purchases are claimed and paid one after another out of the
  -- power that the loop starts with: none costs more than what is left before it, and its cost is taken
  -- from that unless the broker's report of the order is one of a failure. A loop that returns, returns
  -- what is left.
  pub buy_loop-Spends :
      (c : Cycle F) (targets : Dict F) (power : F) (run : Run F S)
      → Spends desk run power (buy_loop desk c targets power run)
  unfolding buy_loop ◌>>=◌ pure
  buy_loop-Spends c [] power run = idle desk run run power refl refl
  buy_loop-Spends c ((s, target) ∷ targets) power run =
      next-Spends desk _ (buy_act-Spends c s target power _ refl run)
        (λ q t. buy_loop-Spends c targets q t)

Affords-nonneg :
    {F S : Type 0} ⦃f : Float F⦄ ⦃laws : IsFloat F⦄ (desk : Desk F S) {s : S} {p : F}
    {is : List (Intent F)} {e : Option (S × F)} (s' : S) (left : F)
    → Affords desk s p is e
    → e ≡ some (s', left)
    → (p ≺ nought) ≡ false
    → (left ≺ nought) ≡ false
Affords-nonneg desk s' left (Affords.nothing {s} {p}) same h =
    subst (λ x. (x.1 ≺ nought) ≡ false) (some-injective (s, p) (s', left) same) h
Affords-nonneg desk s' left Affords.stopped same h = cc
Affords-nonneg ⦃laws = laws⦄ desk s' left (Affords.spent {p} {limit} {i} a b c d l v g) same h =
    Affords-nonneg desk s' left g same (laws.sub_nonneg p (i.quantity ⊗ limit) v)
Affords-nonneg desk s' left (Affords.kept a b c d l v g) same h =
    Affords-nonneg desk s' left g same h
Affords-nonneg desk s' left (Affords.lost a b c l v) same h = cc

-- Under the laws of IsFloat, in a live run, a loop over the purchases that starts with no negative power returns none.
pub buy_loop-nonneg :
    {F S : Type 0} ⦃f : Float F⦄ ⦃laws : IsFloat F⦄ (desk : Desk F S)
    → desk.dry_run_only ≡ false
    → (c : Cycle F) (targets : Dict F) (power left : F) (run : Run F S) → (power ≺ nought) ≡ false
    → (buy_loop desk c targets power run).0 ≡ ok left
    → (left ≺ nought) ≡ false
buy_loop-nonneg desk live c targets power left run h e =
    let s = buy_loop-Spends desk live c targets power run in
    Affords-nonneg desk _ left s.affords (s.ends left e) h
