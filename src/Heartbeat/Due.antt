-- ===== src/Heartbeat/Due.antt =====
-- scripts/runtime_heartbeat_policy.py: `_target_due_status` and `filter_due_targets`. A time is its
-- seconds since the epoch in UTC. `ZoneInfo` and the market calendars are parameters: what a timezone
-- makes of a time, and the session dates of a calendar between two dates.
pub mod Latest
pub mod Ended
pub mod Dropped
use ibkrquant.Prelude.{
  ℕ, zero, suc, ◌+◌, ◌-◌, ◌*◌, ◌/◌, Bool, true, false, ◌&&◌, ◌||◌, not, List, [], ◌∷◌, Option, none,
  some, Text, codes, strip, is_blank_text, ltb, leb, length, ◌==◌, get_or, is_some, if◌then◌else◌,
}
use ibkrquant.Prelude.Int.{ℤ, pos_part}
use ibkrquant.Heartbeat.Cron.{Moment, cron_matches, words}

-- A datetime in a timezone: its date, and what the cron expression reads.
pub record LocalTime : Type 0 where
  pub date : ℕ
  pub moment : Moment

abbrev pub Zone : Type 0
Zone = ℕ → LocalTime

-- `ZoneInfo`, and the loader of session dates; `none` is an exception
pub record Clock : Type 0 where
  pub zone_info : Text → Option Zone
  pub session_dates : Text → ℕ → ℕ → Option (ℕ → Bool)

pub record Scheduler : Type 0 where
  pub main_time : Text
  pub timezone : Text

pub record Target : Type 0 where
  pub service : Text
  pub scheduler : Option Scheduler
  pub market_calendar : Text
  pub market_timezone : Text
  pub latest_due_at : Option ℕ

-- the window that is looked at
pub record Window : Type 0 where
  pub since : ℕ
  pub now : ℕ
  pub publication_grace : ℤ
  pub market_aware : Bool

-- `tuple[bool | None, datetime | None]`
pub record DueStatus : Type 0 where
  pub status : Option Bool
  pub latest : Option ℕ

-- the first full minute at or after a time
unfoldable pub first_cursor : ℕ → ℕ
first_cursor since =
    let cursor = since / 60 * 60 in if ltb cursor since then cursor + 60 else cursor

-- `cursor <= matured_at`
abbrev pub is_mature : Window → ℕ → Bool
is_mature w cursor = leb (cursor + pos_part w.publication_grace) w.now

abbrev pub take_minute : Window → ℕ → Option Bool → Option (List ℕ) → Option (List ℕ)
take_minute w cursor (some matches) (some rest) =
    some (if matches && is_mature w cursor then cursor ∷ rest else rest)
take_minute w cursor _ _ = none

-- the loop over the minutes, on fuel; `none` is the early return on a bad expression
unfoldable pub minutes_due : Window → (ℕ → Option Bool) → ℕ → ℕ → Option (List ℕ)
minutes_due w matches zero cursor = some []
minutes_due w matches (suc n) cursor =
    let rest = minutes_due w matches n (cursor + 60) in
    if leb cursor w.now then take_minute w cursor (matches cursor) rest else some []

-- `cron_due_at`: one turn for each minute up to now
unfoldable pub cron_due_at : Window → (ℕ → Option Bool) → Option (List ℕ)
unfolding minutes_due first_cursor
cron_due_at w matches = minutes_due w matches (suc w.now) (first_cursor w.since)

-- the last element that a test accepts
unfoldable pub last_such : (ℕ → Bool) → List ℕ → Option ℕ
last_such p [] = none
last_such p (t ∷ ts) = elim (last_such p ts) [
  | some u ↦ some u
  | none ↦ if p t then some t else none
]

abbrev or_text : Text → Text → Text
or_text t default = if is_blank_text t then default else t

abbrev no_verdict : Option ℕ → DueStatus
no_verdict latest = record { status = none; latest = latest }

abbrev verdict : Option ℕ → DueStatus
verdict latest = record { status = some (is_some latest); latest = latest }

-- the status by the sessions of the market
abbrev by_sessions : Zone → List ℕ → Option (ℕ → Bool) → DueStatus
by_sessions zone due none = no_verdict (last_such (λ t. true) due)
by_sessions zone due (some sessions) = verdict (last_such (λ t. sessions (zone t).date) due)

abbrev by_zone : Clock → Window → Text → List ℕ → Option Zone → DueStatus
by_zone clock w calendar due none = no_verdict (last_such (λ t. true) due)
by_zone clock w calendar due (some zone) =
    by_sessions zone due (clock.session_dates calendar (zone w.since).date (zone w.now).date)

abbrev pub by_market : Clock → Window → Target → Text → Option (List ℕ) → DueStatus
by_market clock w t timezone none = no_verdict none
by_market clock w t timezone (some due) =
    if w.market_aware && not (is_blank_text (strip t.market_calendar))
    then by_zone clock w (strip t.market_calendar) due
        (clock.zone_info (or_text (strip t.market_timezone) timezone))
    else verdict (last_such (λ u. true) due)

abbrev pub in_zone : Clock → Window → Target → Text → Text → Option Zone → DueStatus
in_zone clock w t schedule timezone none = no_verdict none
in_zone clock w t schedule timezone (some zone) =
    by_market clock w t timezone (cron_due_at w (λ u. cron_matches schedule (zone u).moment))

abbrev pub timezone_of : Scheduler → Text
timezone_of s = or_text (strip (or_text s.timezone (codes "UTC"))) (codes "UTC")

-- `_target_due_status`
unfoldable pub target_due_status : Clock → Window → Target → DueStatus
target_due_status clock w t = elim t.scheduler [
  | none ↦ no_verdict none
  | some s ↦
      if length (words (strip s.main_time)) == 5
      then in_zone clock w t (strip s.main_time) (timezone_of s) (clock.zone_info (timezone_of s))
      else no_verdict none
]

abbrev pub is_dropped : Option Bool → Bool
is_dropped (some false) = true
is_dropped _ = false

abbrev with_latest : Option ℕ → Target → Target
with_latest none t = t
with_latest (some u) t = record t { latest_due_at = some u }

-- `filter_due_targets`
unfoldable pub filter_due_targets : Clock → Window → List Target → List Target × Bool
filter_due_targets clock w [] = ([], false)
filter_due_targets clock w (t ∷ ts) =
    let d = target_due_status clock w t in
    let (due, evaluated) = filter_due_targets clock w ts in
    (
      if is_dropped d.status then due else with_latest d.latest t ∷ due,
      is_some d.status || evaluated,
    )
