-- ===== src/Risk.antt =====
-- The operator's heuristic of src/operation-risk.js: the audit of the configuration, the level of one
-- account and the summary. A finding or a sign stands for the text that the code shows.
pub mod Level
pub mod Summary
use one_gl.Prelude.{
  ℕ, ◌+◌, ◌*◌, ◌≤◌, Bool, true, false, ◌&&◌, ◌||◌, not, Option, none, some, List, [], ◌∷◌, ◌++◌,
  map, if◌then◌else◌, ltb, leb, String, length, sum_by,
}
use one_gl.Providers.{Registry}
use one_gl.Account.State.{
  AccountState, SafetyConfig, Status, healthy, unknown, disabled, paused, cooldown, rate_limited,
  login_required, session_expired, verification_required, access_restricted,
}
use one_gl.Account.Classify.{Availability, permanent, Verdict, classify_account_state, or_else}
use text.Mathlib.Text.{◌==◌ as str_eq}

pub data Risk : Type 0 where
  low medium high : Risk

unfoldable pub severity_score : Risk → ℕ
severity_score low = 1
severity_score medium = 2
severity_score high = 3

-- The fold of highestRisk, from the left.
unfoldable pub highest_risk : List Risk → Risk → Risk
unfolding severity_score
highest_risk [] current = current
highest_risk (level ∷ levels) current =
    highest_risk levels
      (if ltb (severity_score current) (severity_score level) then level else current)

pub data Area : Type 0 where
  browser_stack headless_mode cadence parallelism hourly_volume daily_volume backoff
        network_evidence :
      Area

pub record App : Type 0 where
  pub browser : String
  pub headless : Bool
  pub network_evidence_enabled : Bool

-- The settings that only the audit reads.
pub record Cadence : Type 0 where
  pub min_delay_ms : ℕ
  pub account_parallelism : ℕ

abbrev pub when {ℓ} : {A : Type ℓ} → Bool → A → List A → List A
when true a rest = a ∷ rest
when false a rest = rest

-- A comparison with a setting that is missing is false.
abbrev pub exceeds : Option ℕ → ℕ → Bool
exceeds none n = false
exceeds (some limit) n = ltb n limit

abbrev pub below : Option ℕ → ℕ → Bool
below none n = false
below (some v) n = ltb v n

unfoldable pub audit_findings : App → Cadence → SafetyConfig → List (Risk × Area)
audit_findings app k c =
    when (str_eq app.browser "camoufox") (medium, browser_stack)
      (when app.headless (medium, headless_mode)
        (when (ltb k.min_delay_ms 10000) (high, cadence)
          (when (not (ltb k.min_delay_ms 10000) && ltb k.min_delay_ms 15000) (medium, cadence)
            (when (ltb 1 k.account_parallelism) (high, parallelism)
              (when (exceeds c.account_hourly_limit 20) (medium, hourly_volume)
                (when (ltb 100 c.account_daily_limit) (medium, daily_volume)
                  (when (below c.rate_limit_cooldown_minutes 60) (high, backoff)
                    (when app.network_evidence_enabled (low, network_evidence) []))))))))

unfoldable pub audit_operation_risk : App → Cadence → SafetyConfig → Risk × List (Risk × Area)
unfolding audit_findings highest_risk
audit_operation_risk app k c =
    let findings = audit_findings app k c in (highest_risk (map (λ f. f.0) findings) low, findings)

-- What an account's reasons are about.
pub data Sign : Type 0 where
  platform_status stopped_status failed_in_row daily_quota hourly_quota is_disabled : Sign

unfoldable pub status_sign : Status → List (Risk × Sign)
status_sign verification_required = (high, platform_status) ∷ []
status_sign access_restricted = (high, platform_status) ∷ []
status_sign rate_limited = (high, platform_status) ∷ []
status_sign login_required = (medium, stopped_status) ∷ []
status_sign session_expired = (medium, stopped_status) ∷ []
status_sign paused = (medium, stopped_status) ∷ []
status_sign cooldown = (medium, stopped_status) ∷ []
status_sign healthy = []
status_sign unknown = []
status_sign disabled = []

unfoldable pub failure_sign : ℕ → ℕ → List (Risk × Sign)
failure_sign failures limit =
    if leb limit failures
    then (high, failed_in_row) ∷ []
    else if leb 2 failures
    then (medium, failed_in_row) ∷ []
    else []

-- `today / limit >= 0.8`, without the division.
unfoldable pub daily_sign : ℕ → ℕ → List (Risk × Sign)
daily_sign today limit =
    if ltb 0 limit && leb limit today
    then (medium, daily_quota) ∷ []
    else if ltb 0 limit && leb (4 * limit) (5 * today)
    then (medium, daily_quota) ∷ []
    else []

-- `hourly / limit >= 0.75`, without the division.
unfoldable pub hourly_sign : ℕ → ℕ → List (Risk × Sign)
hourly_sign hourly limit =
    if ltb 0 limit && leb limit hourly
    then (high, hourly_quota) ∷ []
    else if ltb 0 limit && leb (3 * limit) (4 * hourly)
    then (medium, hourly_quota) ∷ []
    else []

unfoldable pub account_signs : SafetyConfig → AccountState → List (Risk × Sign)
unfolding status_sign failure_sign daily_sign hourly_sign
account_signs c s =
    status_sign s.status
    ++ failure_sign s.consecutive_failures c.max_consecutive_failures
    ++ daily_sign s.runs_today c.account_daily_limit
    ++ hourly_sign s.runs_last_hour (or_else c.account_hourly_limit 0)

pub record Assessment : Type 0 where
  pub level : Risk
  signs : List Sign
  next_allowed_at : Option ℕ
  pub availability : Option Availability

-- The text "disabled" as an availability is the `permanent` of a disabled account.
unfoldable pub assess_account_risk :
    Registry → (ℕ → ℕ) → SafetyConfig → ℕ → Option AccountState → Assessment
unfolding account_signs highest_risk
assess_account_risk r wall c now none = record {
  level = low;
  signs = [];
  next_allowed_at = none;
  availability = none;
}
assess_account_risk r wall c now (some s) =
    if not s.enabled
    then record {
      level = low;
      signs = is_disabled ∷ [];
      next_allowed_at = none;
      availability = some permanent;
    }
    else let verdict = classify_account_state r wall c now none none (some s) in
      record {
        level = highest_risk (map (λ f. f.0) (account_signs c s)) low;
        signs = map (λ f. f.1) (account_signs c s);
        next_allowed_at = verdict.retry_at;
        availability = some verdict.kind;
      }

unfoldable pub count_level : Risk → List Risk → ℕ
unfolding severity_score
count_level level [] = 0
count_level level (l ∷ ls) =
    (if leb (severity_score l) (severity_score level)
        && leb (severity_score level) (severity_score l)
      then 1
      else 0)
    + count_level level ls

abbrev pub levels_of : Registry → (ℕ → ℕ) → SafetyConfig → ℕ → List AccountState → List Risk
levels_of r wall c now accounts =
    map (λ s. (assess_account_risk r wall c now (some s)).level) accounts

pub record RiskSummary : Type 0 where
  pub risk : Risk
  pub config_risk : Risk
  pub high_risk_accounts : ℕ
  pub medium_risk_accounts : ℕ
  pub total_runs_today : ℕ
  pub total_runs_last_hour : ℕ

unfoldable pub summarize_operation_risk :
    Registry → (ℕ → ℕ) → SafetyConfig → ℕ → App → Cadence → List AccountState → RiskSummary
unfolding audit_operation_risk highest_risk count_level assess_account_risk
summarize_operation_risk r wall c now app k accounts =
    let config_risk = (audit_operation_risk app k c).0 in
    let levels = levels_of r wall c now accounts in
    record {
      risk = highest_risk (config_risk ∷ highest_risk levels low ∷ []) low;
      config_risk = config_risk;
      high_risk_accounts = count_level high levels;
      medium_risk_accounts = count_level medium levels;
      total_runs_today = sum_by (λ s. s.runs_today) accounts;
      total_runs_last_hour = sum_by (λ s. s.runs_last_hour) accounts;
    }
