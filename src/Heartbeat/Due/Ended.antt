-- ===== src/Heartbeat/Due/Ended.antt =====
-- scripts/runtime_heartbeat_policy.py, `_target_due_status`: the loop over the minutes ends.
use ibkrquant.Prelude.{
  ℕ, zero, suc, ◌+◌, ◌*◌, ◌≤◌, ◌<◌, ◌≡◌, ◌↔◌, refl, ap, Bool, true, ◌&&◌, inl, inr, List, [],
  Option, none, some, is_some, leb, if◌then◌else◌, Bool-cases, arith,
}
use mathlib.Core.Path.{subst}
use ibkrquant.Heartbeat.Due.{Window, first_cursor, take_minute, minutes_due, cron_due_at}

module _ (w : Window) (matches : ℕ → Option Bool) where
  -- From this minute on, the schedule can be evaluated at each full minute up to now.
  abbrev pub IsEvaluable : ℕ → Type 0
  IsEvaluable cursor =
      (k : ℕ) → cursor + k * 60 ≤ w.now → is_some (matches (cursor + k * 60)) ≡ true

  take_minute-some :
      (cursor : ℕ) (m : Option Bool) (rest : Option (List ℕ))
      → is_some (take_minute w cursor m rest) ≡ (is_some m && is_some rest)
  take_minute-some cursor none rest = refl
  take_minute-some cursor (some b) none = refl
  take_minute-some cursor (some b) (some ts) = refl

  -- Every fuel that reaches the present gives the same list.
  minutes_due-fuel :
      (n m cursor : ℕ)
      → w.now < cursor + n * 60
      → w.now < cursor + m * 60
      → minutes_due w matches n cursor ≡ minutes_due w matches m cursor
  unfolding minutes_due
  minutes_due-fuel zero zero cursor hn hm = refl
  minutes_due-fuel zero (suc m) cursor hn hm = ground (arith, hn)
  minutes_due-fuel (suc n) zero cursor hn hm = ground (arith, hm)
  minutes_due-fuel (suc n) (suc m) cursor hn hm =
      ap (λ rest. if leb cursor w.now then take_minute w cursor (matches cursor) rest else some [])
        (minutes_due-fuel n m (cursor + 60) (omega (arith, hn)) (omega (arith, hm)))

  returned : (n cursor : ℕ) → IsEvaluable cursor → is_some (minutes_due w matches n cursor) ≡ true
  unfolding minutes_due
  returned zero cursor h = refl
  returned (suc n) cursor h = elim (Bool-cases (leb cursor w.now)) [
    | inl inside ↦
        let here : is_some (matches cursor) ≡ true =
          subst (λ t. is_some (matches t) ≡ true) (omega arith) (h 0 (ground (arith, inside))) in
        let rest = returned n (cursor + 60) (λ k hk.
          subst (λ t. is_some (matches t) ≡ true) (omega arith) (h (suc k) (omega (arith, hk)))) in
        ground (
          arith,
          inside,
          here,
          rest,
          take_minute-some cursor (matches cursor) (minutes_due w matches n (cursor + 60)),
        )
    | inr outside ↦ ground (arith, outside)
  ]

  evaluable :
      (n cursor : ℕ)
      → w.now < cursor + n * 60
      → is_some (minutes_due w matches n cursor) ≡ true
      → IsEvaluable cursor
  unfolding minutes_due
  evaluable zero cursor hn h k hk = absurd (omega (arith, hn, hk))
  evaluable (suc n) cursor hn h k hk =
      let inside : leb cursor w.now ≡ true = ground (arith, hk) in
      let both : (is_some (matches cursor) && is_some (minutes_due w matches n (cursor + 60)))
          ≡ true =
        ground (
          arith,
          inside,
          h,
          take_minute-some cursor (matches cursor) (minutes_due w matches n (cursor + 60)),
        ) in
      at k hk (ground (arith, both))
        (evaluable n (cursor + 60) (omega (arith, hn)) (ground (arith, both)))
    where
      at :
          (j : ℕ)
          → cursor + j * 60 ≤ w.now
          → is_some (matches cursor) ≡ true
          → IsEvaluable (cursor + 60)
          → is_some (matches (cursor + j * 60)) ≡ true
      at zero hj here later = subst (λ t. is_some (matches t) ≡ true) (omega arith) here
      at (suc j) hj here later =
          subst (λ t. is_some (matches t) ≡ true) (omega arith) (later j (omega (arith, hj)))

  -- The loop over the minutes ends: with any more turns than there are it gives the same list. And it
  -- returns a list exactly if the schedule can be evaluated at each full minute of the window up to now.
  pub cron_due_at-ends :
      (n : ℕ)
      → w.now < n
      → (minutes_due w matches n (first_cursor w.since) ≡ cron_due_at w matches)
        × ((is_some (cron_due_at w matches) ≡ true) ↔ IsEvaluable (first_cursor w.since))
  unfolding cron_due_at
  cron_due_at-ends n h = (
    minutes_due-fuel n (suc w.now) (first_cursor w.since) (omega (arith, h)) (omega arith),
    (
      evaluable (suc w.now) (first_cursor w.since) (omega arith),
      returned (suc w.now) (first_cursor w.since),
    ),
  )
