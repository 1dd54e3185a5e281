-- ===== src/Account/Ops.antt =====
-- The updates of an account's row (src/accounts/safety.js). `now` is the time of the statement; the
-- row exists.
use one_gl.Prelude.{
  ℕ, suc, ◌+◌, ◌*◌, Bool, true, false, Option, none, some, if◌then◌else◌, ltb, leb, ◌==◌,
}
use one_gl.Providers.{Registry, is_credential_free_surface}
use one_gl.Account.State.{
  AccountState, SafetyConfig, Status, healthy, unknown, disabled, cooldown, rate_limited, ErrorCode,
  rate_limit, no_code, is_healthy, is_degraded, is_status, blocked_by, failed_times,
}
use one_gl.Account.Clock.{account_day_key}
use one_gl.Account.Classify.{or_else}
use one_gl.Account.Retry.{Blocking, account_blocking_codes, infrastructure_error_codes}

-- status IN ('cooldown', 'rate_limited')
abbrev pub is_cooling : Status → Bool
is_cooling cooldown = true
is_cooling rate_limited = true
is_cooling _ = false

abbrev is_rate_limit : ErrorCode → Bool
is_rate_limit rate_limit = true
is_rate_limit _ = false

abbrev pub next_count : ℕ → ℕ → Option ℕ → ℕ
next_count today runs none = 1
next_count today runs (some d) = if d == today then suc runs else 1

unfoldable pub begin_account_run : (ℕ → ℕ) → ℕ → AccountState → AccountState
begin_account_run wall now s = record s {
  runs_today = next_count (account_day_key wall now) s.runs_today s.runs_today_date;
  runs_today_date = some (account_day_key wall now);
  last_run_at = some now;
  last_health_status = some is_healthy;
  last_health_checked_at = some now;
  status = if is_cooling s.status then healthy else s.status;
  cooldown_until = if is_cooling s.status then none else s.cooldown_until;
}

unfoldable pub record_account_success : ℕ → AccountState → AccountState
record_account_success now s = record s {
  consecutive_failures = 0;
  status = healthy;
  last_health_status = some is_healthy;
  last_health_checked_at = some now;
  pause_reason = none;
  paused_at = none;
  cooldown_until = none;
}

-- The objects that recordAccountFailure returns.
pub data Outcome : Type 0 where
  infrastructure unmetered : Outcome
  account_blocked : Status → Bool → Outcome
  cooled_down : ℕ → Outcome
  degraded : ℕ → Outcome

abbrev pub is_blocked : Outcome → Bool
is_blocked (account_blocked st manual) = true
is_blocked (cooled_down n) = true
is_blocked _ = false

abbrev minutes : ℕ → ℕ
minutes n = n * 60000

abbrev pub blocking_minutes : SafetyConfig → ErrorCode → ℕ
blocking_minutes c code =
    if is_rate_limit code
    then or_else c.rate_limit_cooldown_minutes c.cooldown_minutes
    else c.cooldown_minutes

-- The update of the branch `if (blocking)`.
unfoldable pub block_account :
    SafetyConfig → ℕ → ErrorCode → Blocking → AccountState → AccountState × Outcome
block_account c now code b s = (
  record s {
    status = b.status;
    paused_at = some now;
    pause_reason = some (blocked_by code);
    last_error_code = some code;
    last_health_status = some (is_status b.status);
    last_health_checked_at = some now;
    cooldown_until = if b.manual then none else some (now + minutes (blocking_minutes c code));
  },
  account_blocked b.status b.manual,
)

abbrev pub sql_code : ErrorCode → Option ErrorCode
sql_code no_code = none
sql_code code = some code

-- The first update of an ordinary failure: one more in the row.
unfoldable pub count_failure : ℕ → ErrorCode → AccountState → AccountState
count_failure now code s = record s {
  consecutive_failures = suc s.consecutive_failures;
  last_error_code = sql_code code;
  last_health_status = some is_degraded;
  last_health_checked_at = some now;
}

-- The second update, once the failures reach the limit.
unfoldable pub cool_down : SafetyConfig → ℕ → AccountState → AccountState × Outcome
cool_down c now s =
    if leb c.max_consecutive_failures s.consecutive_failures
    then (
      record s {
        status = cooldown;
        cooldown_until = some (now + minutes c.cooldown_minutes);
        paused_at = some now;
        pause_reason = some (failed_times s.consecutive_failures);
      },
      cooled_down s.consecutive_failures,
    )
    else (s, degraded s.consecutive_failures)

unfoldable pub fail_metered :
    SafetyConfig → ℕ → ErrorCode → Option Blocking → AccountState → AccountState × Outcome
unfolding block_account count_failure cool_down
fail_metered c now code none s = cool_down c now (count_failure now code s)
fail_metered c now code (some b) s = block_account c now code b s

unfoldable pub record_account_failure :
    Registry → SafetyConfig → ℕ → ErrorCode → AccountState → AccountState × Outcome
unfolding infrastructure_error_codes fail_metered account_blocking_codes
record_account_failure r c now code s =
    if infrastructure_error_codes code
    then (s, infrastructure)
    else if is_credential_free_surface r s.provider
    then (s, unmetered)
    else fail_metered c now code (account_blocking_codes code) s

unfoldable pub resume_account : AccountState → AccountState
resume_account s = record s {
  status = healthy;
  paused_at = none;
  pause_reason = none;
  cooldown_until = none;
  consecutive_failures = 0;
}

unfoldable pub set_account_enabled : Bool → AccountState → AccountState
set_account_enabled on s = record s { enabled = on; status = if on then unknown else disabled }

unfoldable pub mark_storage_state_present : Bool → AccountState → AccountState
mark_storage_state_present present s = record s { storage_state_present = present }

-- markLoginConnected of src/api/remote-auth.js: a login clears a block, unless a cooldown runs.
abbrev pub cooldown_runs : ℕ → Option ℕ → Bool
cooldown_runs now none = false
cooldown_runs now (some t) = ltb now t

unfoldable pub mark_login_connected : ℕ → AccountState → AccountState
mark_login_connected now s =
    let held = cooldown_runs now s.cooldown_until in
    record s {
      storage_state_present = true;
      status = if held then s.status else healthy;
      paused_at = if held then s.paused_at else none;
      pause_reason = if held then s.pause_reason else none;
      consecutive_failures = if held then s.consecutive_failures else 0;
      last_health_status = some is_healthy;
      last_health_checked_at = some now;
    }
