-- ===== src/Heartbeat/Due/Latest.antt =====
-- scripts/runtime_heartbeat_policy.py, `_target_due_status`: the time that is found as the latest due.
use ibkrquant.Prelude.{
  ℕ, zero, suc, ◌+◌, ◌*◌, ◌/◌, ◌≤◌, ◌<◌, ◌≡◌, refl, sym, ap, ◌∙◌, Bool, true, false, ◌&&◌, ◌⊎◌, inl,
  inr, List, [], ◌∷◌, Option, none, some, ltb, leb, if◌then◌else◌, arith,
}
use mathlib.Core.Path.{subst}
use ibkrquant.Prelude.Int.{pos_part}
use ibkrquant.Heartbeat.Due.{
  Window, first_cursor, is_mature, take_minute, minutes_due, cron_due_at, last_such,
}

module _ (w : Window) (matches : ℕ → Option Bool) (p : ℕ → Bool) where
  -- A full minute from this one on that the schedule and the test accept, old enough for its report to
  -- be published by now.
  pub record IsDue (cursor t : ℕ) : Type 0 where
    pub minutes : ℕ
    pub aligned : t ≡ cursor + minutes * 60
    pub mature : t + pos_part w.publication_grace ≤ w.now
    pub matched : matches t ≡ some true
    pub accepted : p t ≡ true

  -- The latest such minute, or that there is none.
  abbrev pub IsLatest : ℕ → Option ℕ → Type 0
  IsLatest cursor none = (t : ℕ) → ¬ IsDue cursor t
  IsLatest cursor (some t) = IsDue cursor t × ((u : ℕ) → IsDue cursor u → u ≤ t)

  earlier : (cursor t : ℕ) → IsDue (cursor + 60) t → IsDue cursor t
  earlier cursor t d = record {
    minutes = suc d.minutes;
    aligned = omega (arith, d.aligned);
    mature = d.mature;
    matched = d.matched;
    accepted = d.accepted;
  }

  now_or_later : (cursor t : ℕ) → IsDue cursor t → (t ≡ cursor) ⊎ IsDue (cursor + 60) t
  now_or_later cursor t d = split d.minutes d.aligned
    where
      split : (k : ℕ) → t ≡ cursor + k * 60 → (t ≡ cursor) ⊎ IsDue (cursor + 60) t
      split zero e = inl (omega (arith, e))
      split (suc k) e = inr (record {
        minutes = k;
        aligned = omega (arith, e);
        mature = d.mature;
        matched = d.matched;
        accepted = d.accepted;
      })

  over : (cursor : ℕ) → w.now < cursor → IsLatest cursor none
  over cursor h t d = absurd (omega (arith, d.aligned, d.mature))

  abbrev newest : Option ℕ → Bool → ℕ → Option ℕ
  newest (some t) b cursor = some t
  newest none true cursor = some cursor
  newest none false cursor = none

  last_such-take :
      (cursor : ℕ) (taken : Bool) (ts : List ℕ)
      → last_such p (if taken then cursor ∷ ts else ts)
        ≡ newest (last_such p ts) (taken && p cursor) cursor
  unfolding last_such
  last_such-take cursor taken ts = ground arith

  step :
      (cursor : ℕ) (o : Option ℕ) (b : Bool)
      → (b ≡ true → IsDue cursor cursor)
      → (b ≡ false → ¬ IsDue cursor cursor)
      → IsLatest (cursor + 60) o
      → IsLatest cursor (newest o b cursor)
  step cursor (some t) b hb nb h = (
    earlier cursor t h.0,
    λ u d. elim (now_or_later cursor u d) [
      | inl same ↦ omega (arith, same, h.0.aligned)
      | inr later ↦ h.1 u later
    ],
  )
  step cursor none true hb nb h = (
    hb refl,
    λ u d. elim (now_or_later cursor u d) [
      | inl same ↦ omega (arith, same)
      | inr later ↦ absurd (h u later)
    ],
  )
  step cursor none false hb nb h = λ u d. elim (now_or_later cursor u d) [
    | inl same ↦ nb refl (subst (IsDue cursor) same d)
    | inr later ↦ h u later
  ]

  taken_now :
      (cursor : ℕ) (b : Bool)
      → matches cursor ≡ some b
      → ((b && is_mature w cursor) && p cursor) ≡ true
      → IsDue cursor cursor
  taken_now cursor b e h =
      let parts : (b ≡ true) × (cursor + pos_part w.publication_grace ≤ w.now) × (p cursor ≡ true) =
        ground arith in
      record {
        minutes = 0;
        aligned = omega arith;
        mature = parts.1;
        matched = e ∙ ap some parts.0;
        accepted = parts.2;
      }

  not_taken :
      (cursor : ℕ) (b : Bool)
      → matches cursor ≡ some b
      → ((b && is_mature w cursor) && p cursor) ≡ false
      → ¬ IsDue cursor cursor
  not_taken cursor b e h d =
      let same : some b ≡ some true = sym e ∙ d.matched in
      let yes : b ≡ true = cc in let mature = d.mature in let accepted = d.accepted in ground arith

  turn :
      (cursor : ℕ) (inside : Bool) (m : Option Bool) (rest : Option (List ℕ)) (due : List ℕ)
      → leb cursor w.now ≡ inside
      → matches cursor ≡ m
      → ((ts : List ℕ) → rest ≡ some ts → IsLatest (cursor + 60) (last_such p ts))
      → (if inside then take_minute w cursor m rest else some []) ≡ some due
      → IsLatest cursor (last_such p due)
  unfolding last_such
  turn cursor false m rest due hi hm ih h =
      let nil : [] ≡ due = cc in
      subst (λ ts. IsLatest cursor (last_such p ts)) nil (over cursor (ground arith))
  turn cursor true none rest due hi hm ih h = cc
  turn cursor true (some b) none due hi hm ih h = cc
  turn cursor true (some b) (some ts) due hi hm ih h =
      let same : (if b && is_mature w cursor then cursor ∷ ts else ts) ≡ due = cc in
      subst (λ us. IsLatest cursor (last_such p us)) same
        (subst (IsLatest cursor) (sym (last_such-take cursor (b && is_mature w cursor) ts)) (
          step cursor (last_such p ts) ((b && is_mature w cursor) && p cursor)
            (taken_now cursor b hm) (not_taken cursor b hm) (ih ts refl)))

  minutes_due-IsLatest :
      (n cursor : ℕ) (due : List ℕ)
      → w.now < cursor + n * 60
      → minutes_due w matches n cursor ≡ some due
      → IsLatest cursor (last_such p due)
  unfolding minutes_due last_such
  minutes_due-IsLatest zero cursor due hn h =
      let nil : [] ≡ due = cc in
      subst (λ ts. IsLatest cursor (last_such p ts)) nil (over cursor (omega arith))
  minutes_due-IsLatest (suc n) cursor due hn h =
      turn cursor (leb cursor w.now) (matches cursor) (minutes_due w matches n (cursor + 60)) due
        refl refl (λ ts. minutes_due-IsLatest n (cursor + 60) ts (omega arith)) h

  -- If the loop over the minutes returns, the last of its times that the test accepts is the latest full
  -- minute since the start of the window that the schedule matches and the test accepts, and whose
  -- publication grace is over by now; if it accepts none, there is no such minute. The loop covers every
  -- minute up to now.
  pub cron_due_at-IsLatest :
      (due : List ℕ)
      → cron_due_at w matches ≡ some due
      → IsLatest (first_cursor w.since) (last_such p due)
  unfolding cron_due_at
  cron_due_at-IsLatest due =
      minutes_due-IsLatest (suc w.now) (first_cursor w.since) due (omega arith)

-- The loop starts with the first full minute of the window.
pub first_cursor_lem :
    (since : ℕ)
    → (since ≤ first_cursor since)
      × (first_cursor since < since + 60)
      × (k : ℕ) × (first_cursor since ≡ k * 60)
unfolding first_cursor
first_cursor_lem since = (
  ground arith,
  ground arith,
  (if ltb (since / 60 * 60) since then since / 60 + 1 else since / 60),
  ground arith,
)
