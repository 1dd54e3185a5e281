-- ===== src/Monitoring/Schedule/First.antt =====
-- The next run of a plan is the first one of its schedule after now (src/monitoring/plans.js).
use one_gl.Prelude.{
  ℕ, ◌+◌, ◌-◌, ◌*◌, ◌/◌, ◌%◌, ◌≤◌, ◌<◌, ◌≡◌, sym, subst, inl, inr, false, leb, arith, leb→le,
  Bool-cases,
}
use one_gl.Monitoring.Schedule.{
  day_ms, iso_weekday, Cadence, daily, weekly, Plan, days_ahead, period, next_scheduled_at,
}
use one_gl.Monitoring.Schedule.Converges.{fixed_zone, local_date_time_to_utc-fixed}

-- The days of a cadence.
abbrev pub OnDay : Cadence → ℕ → Type 0
OnDay daily day = Unit
OnDay (weekly weekday) day = iso_weekday day ≡ weekday

abbrev pub IsCadence : Cadence → Type 0
IsCadence daily = Unit
IsCadence (weekly weekday) = (1 ≤ weekday) × (weekday ≤ 7)

record FirstDays (c : Cadence) (day : ℕ) : Type 0 where
  first_on : OnDay c (day + days_ahead c day)
  next_on : OnDay c (day + days_ahead c day + period c)
  first : (d : ℕ) → day ≤ d → OnDay c d → day + days_ahead c day ≤ d
  next : (d : ℕ) → day + days_ahead c day < d → OnDay c d → day + days_ahead c day + period c ≤ d

days_ahead-FirstDays : (c : Cadence) (day : ℕ) → IsCadence c → FirstDays c day
unfolding iso_weekday
days_ahead-FirstDays daily day h = record {
  first_on = tt;
  next_on = tt;
  first = λ d le on. omega arith;
  next = λ d le on. omega arith;
}
days_ahead-FirstDays (weekly weekday) day h = record {
  first_on = ground (arith, h.0, h.1);
  next_on = ground (arith, h.0, h.1);
  first = λ d le on. ground (arith, on, h.0, h.1);
  next = λ d le on. ground (arith, on, h.0, h.1);
}

abbrev pub seconds_of : Plan → ℕ
seconds_of plan = plan.local_hour * 3600000 + plan.local_minute * 60000

-- A whole second at which the clock of the zone shows the plan's time on one of its days.
pub record IsRun (ahead : ℕ) (plan : Plan) (t : ℕ) : Type 0 where
  pub whole : t % 1000 ≡ 0
  pub on_time : fixed_zone ahead t % day_ms ≡ seconds_of plan
  pub on_day : OnDay plan.cadence (fixed_zone ahead t / day_ms)

-- The first run after an instant.
pub record IsFirstRun (ahead : ℕ) (plan : Plan) (now t : ℕ) : Type 0 where
  pub is_run : IsRun ahead plan t
  pub future : now < t
  pub first : (u : ℕ) → now < u → IsRun ahead plan u → t ≤ u

pub record IsPlan (ahead : ℕ) (plan : Plan) : Type 0 where
  pub hour : plan.local_hour ≤ 23
  pub minute : plan.local_minute ≤ 59
  pub cadence : IsCadence plan.cadence
  pub zone : ahead < day_ms
  pub zone_whole : ahead % 1000 ≡ 0

not_leb : (a b : ℕ) → leb a b ≡ false → b < a
not_leb a b h = ground (arith, h)

module _ (ahead : ℕ) (plan : Plan) (valid : IsPlan ahead plan) where
  instant : ℕ → ℕ
  instant day = day * day_ms + plan.local_hour * 3600000 + plan.local_minute * 60000 - ahead

  instant-IsRun : (day : ℕ) → 0 < day → OnDay plan.cadence day → IsRun ahead plan (instant day)
  unfolding instant
  instant-IsRun day h on =
      let shown : fixed_zone ahead (instant day) ≡ day * day_ms + seconds_of plan =
        omega (arith, valid.zone, valid.zone_whole) in
      let that_day : fixed_zone ahead (instant day) / day_ms ≡ day =
        omega (arith, shown, valid.hour, valid.minute) in
      record {
        whole = omega (arith, valid.zone_whole, valid.zone);
        on_time = omega (arith, shown, valid.hour, valid.minute);
        on_day = subst (OnDay plan.cadence) (sym that_day) on;
      }

  -- A run is the instant of its day.
  IsRun-instant : (u : ℕ) → IsRun ahead plan u → u ≡ instant (fixed_zone ahead u / day_ms)
  unfolding instant
  IsRun-instant u r = omega (arith, r.whole, r.on_time)

  instant-le : (a b : ℕ) → a ≤ b → instant a ≤ instant b
  unfolding instant
  instant-le a b h = omega (arith, h)

  instant-future :
      (now day : ℕ) → day_ms ≤ now → fixed_zone ahead now / day_ms < day → now < instant day
  unfolding instant
  instant-future now day late h = omega (arith, valid.zone, valid.zone_whole)

  day-le : (now u : ℕ) → now < u → fixed_zone ahead now / day_ms ≤ fixed_zone ahead u / day_ms
  day-le now u h = omega arith

  period-positive : (c : Cadence) → 0 < period c
  period-positive daily = omega arith
  period-positive (weekly weekday) = omega arith

  day-lt : (now c u day : ℕ) → instant c ≤ now → u ≡ instant day → now < u → c < day
  unfolding instant
  day-lt now c u day past at h = omega (arith, at)

  -- Where the candidate is past, the one after it is the first.
  next-IsFirstRun :
      (now c : ℕ)
      → day_ms ≤ now
      → fixed_zone ahead now / day_ms ≤ c
      → instant c ≤ now
      → OnDay plan.cadence (c + period plan.cadence)
      → ((d : ℕ) → c < d → OnDay plan.cadence d → c + period plan.cadence ≤ d)
      → IsFirstRun ahead plan now (instant (c + period plan.cadence))
  next-IsFirstRun now c late from past on next = record {
    is_run =
        instant-IsRun (c + period plan.cadence) (omega (arith, period-positive plan.cadence)) on;
    future =
        instant-future now (c + period plan.cadence) late
          (omega (arith, period-positive plan.cadence));
    first = λ u h r.
        let day = fixed_zone ahead u / day_ms in
        let at : u ≡ instant day = IsRun-instant u r in
        let c_lt : c < day = day-lt now c u day past at h in
        subst (λ x. instant (c + period plan.cadence) ≤ x) (sym at)
          (instant-le (c + period plan.cadence) day (next day c_lt r.on_day));
  }

  here-IsFirstRun :
      (now c : ℕ)
      → day_ms ≤ now
      → fixed_zone ahead now / day_ms ≤ c
      → now < instant c
      → OnDay plan.cadence c
      → ((d : ℕ) → fixed_zone ahead now / day_ms ≤ d → OnDay plan.cadence d → c ≤ d)
      → IsFirstRun ahead plan now (instant c)
  here-IsFirstRun now c late from future on first = record {
    is_run = instant-IsRun c (omega (arith, from, late)) on;
    future = future;
    first = λ u h r.
        let day = fixed_zone ahead u / day_ms in
        subst (λ x. instant c ≤ x) (sym (IsRun-instant u r))
          (instant-le c day (first day (day-le now u h) r.on_day));
  }

  -- In a zone that is ahead of UTC by a fixed time of whole seconds, and from 2 January 1970 on: the next run
  -- of a valid plan is the first whole second after now at which the zone's clock shows the plan's time on a
  -- day of its cadence.
  pub next_scheduled_at-IsFirstRun :
      (now : ℕ)
      → day_ms ≤ now
      → IsFirstRun ahead plan now (next_scheduled_at (fixed_zone ahead) plan now)
  unfolding next_scheduled_at instant
  next_scheduled_at-IsFirstRun now late =
      let day = fixed_zone ahead now / day_ms in
      let days = days_ahead-FirstDays plan.cadence day valid.cadence in
      let c = day + days_ahead plan.cadence day in
      rw
        (
          local_date_time_to_utc-fixed ahead c plan.local_hour plan.local_minute,
          local_date_time_to_utc-fixed ahead (c + period plan.cadence) plan.local_hour
              plan.local_minute,
        )
        (elim (Bool-cases (leb (instant c) now)) [
          | inl past ↦ rw past (
              next-IsFirstRun now c late (omega arith) (leb→le (instant c) now past) days.next_on
                days.next)
          | inr future ↦ rw future (
              here-IsFirstRun now c late (omega arith) (not_leb (instant c) now future)
                days.first_on days.first)
        ])
