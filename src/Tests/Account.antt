-- ===== src/Tests/Account.antt =====
-- Accounts of one stored and one anonymous surface, in a time zone eight hours ahead.
pub mod Life
use one_gl.Prelude.{
  ℕ, zero, suc, ◌+◌, ◌*◌, ◌/◌, ◌≤◌, ◌<◌, ◌≡◌, ◌≢◌, ◌↔◌, ◌⊎◌, inl, inr, refl, Bool, true, false,
  Option, none, some, List, [], ◌∷◌, String, arith,
}
use one_gl.Providers.{Registry, Adapter, Quota, Pacing, is_credential_free_surface}
use one_gl.Account.State.{
  AccountState, SafetyConfig, ErrorCode, doubao_timeout, healthy, rate_limited, Status, cooldown,
}
use one_gl.Account.Clock.{account_day_key, next_account_day_start}
use one_gl.Account.Clock.{lt-next_account_day_start, account_day_key-next_account_day_start}
use one_gl.Account.Classify.{
  Availability, available, permanent, Burst, classify_account_state, runs_of_today,
}
use one_gl.Account.Classify.Shape.{IsSound, classify_account_state-IsSound}
use one_gl.Account.Classify.Runnable.{
  WindowLeft, SurfaceRunnable, classify_account_state-available_iff,
}
use one_gl.Account.Classify.Refused.{classify_account_state-refused}
use one_gl.Account.Retry.{
  can_retry_outcome, retryable_codes, is_blocking, infrastructure_error_codes, IsFreshWindowCode,
  can_retry_outcome_safe, can_retry_outcome-unsubmitted,
}
use one_gl.Batch.Plan.{max_cooldown_waits, plan_job, delay, skip}
use one_gl.Batch.Plan.Waits.{classify_account_state-plan_job}
use one_gl.Account.Classify.{temporary}

abbrev pub stored_adapter : Adapter
stored_adapter = record {
  id = "doubao-web";
  provider = "doubao";
  requires_stored_auth = true;
  quota = none;
}

abbrev pub anonymous_adapter : Adapter
anonymous_adapter = record {
  id = "qianwen-web";
  provider = "qianwen";
  requires_stored_auth = false;
  quota = some (record { burst_prompts = some 5; burst_pause_ms = some 600000 });
}

abbrev pub registry : Registry
registry = record { adapters = stored_adapter ∷ anonymous_adapter ∷ []; normalize = λ id. id }

abbrev pub wall : ℕ → ℕ
wall t = t / 1000 * 1000 + 28800000

abbrev pub config : SafetyConfig
config = record {
  account_daily_limit = 40;
  account_hourly_limit = some 10;
  min_inter_run_ms = some 45000;
  max_consecutive_failures = 3;
  cooldown_minutes = 60;
  rate_limit_cooldown_minutes = some 180;
}

abbrev pub account : AccountState
account = record {
  provider = "doubao";
  enabled = true;
  status = healthy;
  last_run_at = some 1000000;
  runs_today = 7;
  runs_today_date = some 0;
  consecutive_failures = 0;
  cooldown_until = none;
  paused_at = none;
  pause_reason = none;
  last_error_code = none;
  last_health_status = none;
  last_health_checked_at = none;
  storage_state_present = true;
  runs_last_hour = 2;
  hour_window_oldest = some 500000;
}

abbrev pub disabled_account : AccountState
disabled_account = record account { enabled = false }

classify_account_state-IsSound_example :
    IsSound 1010000 (classify_account_state registry wall config 1010000 none none (some account))
classify_account_state-IsSound_example =
    classify_account_state-IsSound registry wall config 1010000 none none (some account)

classify_account_state-available_iff_example :
    ((classify_account_state registry wall config 2000000 none none (some account)).kind
      ≡ available)
    ↔ ((true ≡ true)
        × WindowLeft 2000000 none none
        × SurfaceRunnable registry wall config 2000000 account)
classify_account_state-available_iff_example =
    classify_account_state-available_iff registry wall config 2000000 none none account
