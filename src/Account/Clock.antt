-- ===== src/Account/Clock.antt =====
-- The account's day (src/accounts/safety.js). `wall t` stands for JavaScript's `Intl`: the calendar
-- fields that the account's time zone shows at `t`, read as a UTC time in whole seconds.
use one_gl.Prelude.{ℕ, ◌+◌, ◌-◌, ◌*◌, ◌/◌, ◌%◌, ◌<◌, ◌≡◌, arith}

abbrev pub day_ms : ℕ
day_ms = 86400000

-- The key of the day in the account's zone, as the number of the day.
unfoldable pub account_day_key : (ℕ → ℕ) → ℕ → ℕ
account_day_key wall now = wall now / day_ms

-- `now + offset`, with `offset = wall now - floor (now / 1000) * 1000`.
unfoldable pub shifted_time : (ℕ → ℕ) → ℕ → ℕ
shifted_time wall now = wall now + now % 1000

-- The next midnight of the shifted time, less the offset. The midnight is above the wall time, so
-- the subtraction is exact.
unfoldable pub next_account_day_start : (ℕ → ℕ) → ℕ → ℕ
unfolding shifted_time
next_account_day_start wall now =
    (shifted_time wall now / day_ms + 1) * day_ms + now / 1000 * 1000 - wall now

-- The next day starts in the future, in every time zone.
pub lt-next_account_day_start : (wall : ℕ → ℕ) (now : ℕ) → now < next_account_day_start wall now
unfolding next_account_day_start
lt-next_account_day_start wall now = omega arith

-- Where the zone shows whole seconds and keeps its offset until the next day starts, that time is
-- in the following day.
pub account_day_key-next_account_day_start :
    (wall : ℕ → ℕ) (now : ℕ)
    → wall now % 1000 ≡ 0
    → wall (next_account_day_start wall now) + now / 1000 * 1000
      ≡ wall now + next_account_day_start wall now / 1000 * 1000
    → account_day_key wall (next_account_day_start wall now) ≡ account_day_key wall now + 1
unfolding next_account_day_start account_day_key
account_day_key-next_account_day_start wall now whole steady = omega arith
