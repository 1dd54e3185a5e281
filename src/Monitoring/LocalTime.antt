-- ===== src/Monitoring/LocalTime.antt =====
-- Times of the day as texts (src/monitoring/plans.js): `parseMonitorLocalTime` of a text that is trimmed. A
-- text is the list of its codes.
pub mod Printed
use one_gl.Prelude.{
  ℕ, ◌+◌, ◌-◌, ◌*◌, ◌/◌, ◌%◌, Bool, true, false, ◌&&◌, ◌||◌, Option, none, some, List, [], ◌∷◌,
  if◌then◌else◌, ltb, leb, ◌==◌, Text,
}

abbrev pub is_digit : ℕ → Bool
is_digit c = leb b'0' c && leb c b'9'

pub record LocalTime : Type 0 where
  pub hour : ℕ
  pub minute : ℕ

abbrev pub two_digits : ℕ → ℕ → ℕ
two_digits a b = (a - b'0') * 10 + (b - b'0')

-- `String(n).padStart(2, "0")` of a number below 100
abbrev pub padded : ℕ → Text → Text
padded n rest = (b'0' + n / 10) ∷ (b'0' + n % 10) ∷ rest

abbrev pub local_time_text : LocalTime → Text
local_time_text t = padded t.hour (b':' ∷ padded t.minute [])

-- `/^(\d{2}):(\d{2})$/` and the bounds; `none` is the exception.
unfoldable pub parse_monitor_local_time : Text → Option LocalTime
parse_monitor_local_time (a ∷ b ∷ c ∷ d ∷ e ∷ []) =
    if is_digit a && (is_digit b && (c == b':' && (is_digit d && is_digit e)))
    then if ltb 23 (two_digits a b) || ltb 59 (two_digits d e)
      then none
      else some (record { hour = two_digits a b; minute = two_digits d e })
    else none
parse_monitor_local_time _ = none
