-- ===== src/Heartbeat/Due/Dropped.antt =====
-- scripts/runtime_heartbeat_policy.py: which targets `filter_due_targets` leaves out.
use ibkrquant.Prelude.{
  ℕ, ◌≡◌, refl, not, List, [], ◌∷◌, Option, none, some, map, keep, any, is_some, arith,
}
use ibkrquant.Heartbeat.Due.{
  Clock, Window, Target, target_due_status, is_dropped, with_latest, filter_due_targets,
}

service-with_latest : (latest : Option ℕ) (t : Target) → (with_latest latest t).service ≡ t.service
service-with_latest none t = refl
service-with_latest (some u) t = refl

-- The targets that are due are, in their order, all but those whose status says that nothing was due: a
-- target that cannot be evaluated stays. The second result says whether any could be evaluated.
pub filter_due_targets_lem :
    (clock : Clock) (w : Window) (ts : List Target)
    → (map (λ t. t.service) (filter_due_targets clock w ts).0
        ≡ map
            (λ t. t.service)
            (keep (λ t. not (is_dropped (target_due_status clock w t).status)) ts))
      × ((filter_due_targets clock w ts).1
          ≡ any (λ t. is_some (target_due_status clock w t).status) ts)
unfolding filter_due_targets
filter_due_targets_lem clock w [] = (refl, refl)
filter_due_targets_lem clock w (t ∷ ts) =
    let rest = filter_due_targets_lem clock w ts in
    let same = service-with_latest (target_due_status clock w t).latest t in
    (ground (arith, rest.0, same), ground (arith, rest.1))
