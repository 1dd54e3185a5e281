-- ===== src/Account/State.antt =====
-- The row of the table `accounts` as src/accounts/safety.js reads and writes it, and the
-- configuration of the safety layer. Times are milliseconds since the epoch, a date is the number
-- of its day.
use one_gl.Prelude.{ℕ, String, Bool, Option}

-- The texts that the column `status` holds.
pub data Status : Type 0 where
  healthy unknown disabled paused cooldown rate_limited : Status
  login_required session_expired verification_required access_restricted : Status

-- The error codes that the code names; `other` is any further text, `no_code` is null.
pub data ErrorCode : Type 0 where
  doubao_login_required doubao_session_expired doubao_verification_required : ErrorCode
  doubao_access_restricted rate_limit : ErrorCode
  database_error redis_error storage_error : ErrorCode
  doubao_timeout network_error doubao_conversation_reset_failed : ErrorCode
  doubao_submission_failed page_changed answer_not_found doubao_submit_degraded : ErrorCode
  other : String → ErrorCode
  no_code : ErrorCode

-- Why an account may not run, in place of the message that shows it.
pub data Reason : Type 0 where
  account_disabled : Reason
  window_spent : ℕ → Reason
  account_paused : Reason
  cooling : Reason
  daily_limit hourly_limit : ℕ → Reason
  too_soon : ℕ → Reason

-- What the column `pause_reason` says.
pub data PauseReason : Type 0 where
  blocked_by : ErrorCode → PauseReason
  failed_times : ℕ → PauseReason

pub data Health : Type 0 where
  is_healthy is_degraded : Health
  is_status : Status → Health

pub record AccountState : Type 0 where
  pub provider : String
  pub enabled : Bool
  pub status : Status
  pub last_run_at : Option ℕ
  pub runs_today : ℕ
  pub runs_today_date : Option ℕ
  pub consecutive_failures : ℕ
  pub cooldown_until : Option ℕ
  pub paused_at : Option ℕ
  pub pause_reason : Option PauseReason
  pub last_error_code : Option ErrorCode
  pub last_health_status : Option Health
  pub last_health_checked_at : Option ℕ
  pub storage_state_present : Bool
  -- counted from the table `runs` by the query
  pub runs_last_hour : ℕ
  pub hour_window_oldest : Option ℕ

-- A field that the source reads by `?? default` is an `Option`.
pub record SafetyConfig : Type 0 where
  pub account_daily_limit : ℕ
  pub account_hourly_limit : Option ℕ
  pub min_inter_run_ms : Option ℕ
  pub max_consecutive_failures : ℕ
  pub cooldown_minutes : ℕ
  pub rate_limit_cooldown_minutes : Option ℕ
