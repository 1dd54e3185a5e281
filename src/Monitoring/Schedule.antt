-- ===== src/Monitoring/Schedule.antt =====
-- When a plan runs next (src/monitoring/plans.js): `timeZoneOffsetMs`, `localDateTimeToUtc`, `isoWeekday`
-- and `nextScheduledAt`. Times are milliseconds; `wall` is what the clock of the plan's time zone shows at
-- an instant, read as if it were UTC, which the platform's calendar gives. A date is the number of its day
-- from 1 January 1970.
pub mod Converges
pub mod First
use one_gl.Prelude.{
  ℕ, zero, suc, ◌+◌, ◌-◌, ◌*◌, ◌/◌, ◌%◌, Bool, true, false, ◌&&◌, ◌||◌, Option, none, some, List,
  [], ◌∷◌, if◌then◌else◌, ltb, leb, ◌==◌,
}

abbrev pub day_ms : ℕ
day_ms = 86400000

-- `wallClockUtc - timeZoneOffsetMs(candidate)`
unfoldable pub shifted_back : (ℕ → ℕ) → ℕ → ℕ → ℕ
shifted_back wall wall_clock candidate = wall_clock + candidate / 1000 * 1000 - wall candidate

abbrev pub is_close : ℕ → ℕ → Bool
is_close a b = ltb (a - b) 1000 && ltb (b - a) 1000

unfoldable pub converge : (ℕ → ℕ) → ℕ → ℕ → ℕ → ℕ
unfolding shifted_back
converge wall wall_clock zero candidate = candidate
converge wall wall_clock (suc n) candidate =
    let next = shifted_back wall wall_clock candidate in
    let rest = converge wall wall_clock n next in if is_close next candidate then next else rest

-- Three iterations from the wall clock itself.
unfoldable pub local_date_time_to_utc : (ℕ → ℕ) → ℕ → ℕ → ℕ → ℕ
unfolding converge
local_date_time_to_utc wall day hour minute =
    let wall_clock = day * day_ms + hour * 3600000 + minute * 60000 in
    converge wall wall_clock 3 wall_clock

-- 1 January 1970 was a Thursday; Sunday is 7.
unfoldable pub iso_weekday : ℕ → ℕ
iso_weekday day = let value = (day + 4) % 7 in if value == 0 then 7 else value

pub data Cadence : Type 0 where
  daily : Cadence
  weekly : ℕ → Cadence

pub record Plan : Type 0 where
  pub cadence : Cadence
  pub local_hour : ℕ
  pub local_minute : ℕ

-- The cadence's days: how many ahead the first candidate is, and how many more the next.
abbrev pub days_ahead : Cadence → ℕ → ℕ
days_ahead daily day = 0
days_ahead (weekly weekday) day = (weekday + 7 - iso_weekday day) % 7

abbrev pub period : Cadence → ℕ
period daily = 1
period (weekly weekday) = 7

-- The plan's numbers are in their bounds.
unfoldable pub next_scheduled_at : (ℕ → ℕ) → Plan → ℕ → ℕ
unfolding local_date_time_to_utc iso_weekday
next_scheduled_at wall plan now =
    let day = wall now / day_ms in
    let ahead = days_ahead plan.cadence day in
    let candidate = local_date_time_to_utc wall (day + ahead) plan.local_hour plan.local_minute in
    let next =
      local_date_time_to_utc wall (day + ahead + period plan.cadence) plan.local_hour
        plan.local_minute in
    if leb candidate now then next else candidate
