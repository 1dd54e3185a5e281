-- ===== src/Monitoring/Schedule/Converges.antt =====
-- What the search for an instant of the wall clock finds (src/monitoring/plans.js).
use one_gl.Prelude.{ℕ, zero, suc, ◌+◌, ◌-◌, ◌*◌, ◌/◌, ◌≡◌, arith, if-both}
use one_gl.Monitoring.Schedule.{day_ms, shifted_back, is_close, converge, local_date_time_to_utc}

-- A zone that is ahead of UTC by a fixed time.
abbrev pub fixed_zone : ℕ → ℕ → ℕ
fixed_zone ahead t = t / 1000 * 1000 + ahead

shifted_back-fixed :
    (ahead wall_clock candidate : ℕ)
    → shifted_back (fixed_zone ahead) wall_clock candidate ≡ wall_clock - ahead
unfolding shifted_back
shifted_back-fixed ahead wall_clock candidate = omega arith

converge-fixed :
    (ahead wall_clock n candidate : ℕ)
    → converge (fixed_zone ahead) wall_clock (suc n) candidate ≡ wall_clock - ahead
unfolding converge
converge-fixed ahead wall_clock zero candidate =
    let next = shifted_back-fixed ahead wall_clock candidate in
    if-both (λ x. x ≡ wall_clock - ahead)
      (is_close (shifted_back (fixed_zone ahead) wall_clock candidate) candidate) next next
converge-fixed ahead wall_clock (suc n) candidate =
    if-both (λ x. x ≡ wall_clock - ahead)
      (is_close (shifted_back (fixed_zone ahead) wall_clock candidate) candidate)
      (shifted_back-fixed ahead wall_clock candidate)
      (converge-fixed ahead wall_clock n (shifted_back (fixed_zone ahead) wall_clock candidate))

-- In such a zone the search finds the instant.
pub local_date_time_to_utc-fixed :
    (ahead day hour minute : ℕ)
    → local_date_time_to_utc (fixed_zone ahead) day hour minute
      ≡ day * day_ms + hour * 3600000 + minute * 60000 - ahead
unfolding local_date_time_to_utc
local_date_time_to_utc-fixed ahead day hour minute =
    converge-fixed ahead (day * day_ms + hour * 3600000 + minute * 60000) 2
      (day * day_ms + hour * 3600000 + minute * 60000)
