-- ===== src/Heartbeat/Cron/Range.antt =====
-- scripts/runtime_heartbeat_policy.py, `_cron_field_values`: the values of a range with a step.
use ibkrquant.Prelude.{ℕ, zero, suc, ◌+◌, ◌*◌, ◌≤◌, ◌<◌, ◌≡◌, ◌↔◌, ◌⊎◌, true, arith, inl, inr}
use ibkrquant.Prelude.Int.{pos}
use ibkrquant.Heartbeat.Cron.{range_from, range, member}

-- A value that the range reaches, at or below its last one.
abbrev pub Reached : ℕ → ℕ → ℕ → ℕ → Type 0
Reached start last step v = (k : ℕ) × (v ≡ start + k * step) × (v ≤ last)

next-Reached :
    (start last step v : ℕ) → Reached (start + step) last step v → Reached start last step v
next-Reached start last step v (k, e, h) = (suc k, omega (arith, e), h)

range_from_sound :
    (fuel start last step v : ℕ)
    → member v (range_from fuel start last step) ≡ true
    → Reached start last step v
unfolding range_from
range_from_sound zero start last step v h = cc
range_from_sound (suc n) start last step v h =
    let split : ((v ≡ start) × (start ≤ last))
        ⊎ (member v (range_from n (start + step) last step) ≡ true) =
      ground arith in
    elim split [
      | inl first ↦ (0, omega (arith, first.0), omega (arith, first.0, first.1))
      | inr later ↦
          next-Reached start last step v (range_from_sound n (start + step) last step v later)
    ]

range_from_complete :
    (fuel start last step k : ℕ)
    → 1 ≤ step
    → last < start + fuel
    → start + k * step ≤ last
    → member (start + k * step) (range_from fuel start last step) ≡ true
unfolding range_from
range_from_complete zero start last step k hs hf h = absurd (omega arith)
range_from_complete (suc n) start last step zero hs hf h = ground arith
range_from_complete (suc n) start last step (suc k) hs hf h =
    let rest = range_from_complete n (start + step) last step k hs (omega arith) (omega arith) in
    ground (arith, rest)

-- A range with a positive step holds exactly the values from its start to its last one in steps: the
-- fuel that the model gives it is enough.
pub range_lem :
    (start last step v : ℕ)
    → 1 ≤ step
    → (member v (range start (pos last) step) ≡ true) ↔ Reached start last step v
range_lem start last step v hs = (
  range_from_sound (suc last) start last step v,
  λ (k, e, h).
      rw e (range_from_complete (suc last) start last step k hs (omega arith) (omega (arith, e))),
)
