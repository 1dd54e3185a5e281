-- ===== src/Monitoring/LocalTime/Printed.antt =====
-- The times of the day and their texts (src/monitoring/plans.js).
use one_gl.Prelude.{◌+◌, ◌/◌, ◌%◌, ◌≤◌, ◌≡◌, refl, true, false, ◌&&◌, ◌||◌, some, ltb, arith}
use one_gl.Monitoring.LocalTime.{
  LocalTime, is_digit, two_digits, local_time_text, parse_monitor_local_time,
}

-- The text of a time of the day reads back as that time.
parse_monitor_local_time-local_time_text :
    (t : LocalTime)
    → t.hour ≤ 23
    → t.minute ≤ 59
    → parse_monitor_local_time (local_time_text t) ≡ some t
unfolding parse_monitor_local_time
parse_monitor_local_time-local_time_text t h m =
    let hour : two_digits (b'0' + t.hour / 10) (b'0' + t.hour % 10) ≡ t.hour = omega arith in
    let minute : two_digits (b'0' + t.minute / 10) (b'0' + t.minute % 10) ≡ t.minute =
      omega arith in
    let read : is_digit (b'0' + t.hour / 10)
          && (is_digit (b'0' + t.hour % 10)
              && (true && (is_digit (b'0' + t.minute / 10) && is_digit (b'0' + t.minute % 10))))
        ≡ true =
      ground arith in
    let inside : ltb 23 t.hour || ltb 59 t.minute ≡ false = ground arith in
    rw (read, hour, minute, inside) refl
