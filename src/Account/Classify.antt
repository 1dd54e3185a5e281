-- ===== src/Account/Classify.antt =====
-- classifyAccountState of src/accounts/safety.js. Each guard with its early return is a gate, which
-- yields the verdict that it returns; the gates stand in the order of the code.
pub mod Shape
pub mod Runnable
pub mod Refused
use one_gl.Prelude.{
  ℕ, String, ◌+◌, ◌*◌, ◌/◌, Bool, true, false, ◌&&◌, Option, none, some, if◌then◌else◌, ltb, leb,
  ◌==◌, not,
}
use one_gl.Providers.{Registry, Pacing, is_credential_free_surface}
use one_gl.Account.State.{
  AccountState, SafetyConfig, Reason, account_disabled, window_spent, account_paused, cooling,
  daily_limit, hourly_limit, too_soon,
}
use one_gl.Account.Clock.{account_day_key, next_account_day_start}
use text.Mathlib.Text.{◌==◌ as str_eq}

pub data Availability : Type 0 where
  available temporary permanent : Availability

pub record Verdict : Type 0 where
  pub kind : Availability
  pub reason : Option Reason
  pub retry_at : Option ℕ
  pub paced : Bool

-- What an account has spent of a burst allowance.
pub record Burst : Type 0 where
  pub runs_in_window : ℕ
  pub newest_run_at : Option ℕ

abbrev pub admit : Verdict
admit = record { kind = available; reason = none; retry_at = none; paced = false }

abbrev pub refuse : Reason → Verdict
refuse r = record { kind = permanent; reason = some r; retry_at = none; paced = false }

abbrev pub wait : Reason → ℕ → Verdict
wait r t = record { kind = temporary; reason = some r; retry_at = some t; paced = false }

-- A guard that returns early, before the rest of the function.
infixr 5 ◌orelse◌
abbrev pub ◌orelse◌ : Option Verdict → Verdict → Verdict
none orelse v = v
(some u) orelse v = u

abbrev pub is_some {ℓ} : {A : Type ℓ} → Option A → Bool
is_some none = false
is_some (some a) = true

unfoldable pub window_gate : ℕ → Pacing → ℕ → Option ℕ → Option Verdict
window_gate now p used none = none
window_gate now p used (some newest) =
    if leb p.prompts used && ltb now (newest + p.pause_ms)
    then some (record {
      kind = temporary;
      reason = some (window_spent p.prompts);
      retry_at = some (newest + p.pause_ms);
      paced = true;
    })
    else none

unfoldable pub pacing_gate : ℕ → Option Pacing → Option Burst → Option Verdict
unfolding window_gate
pacing_gate now none b = none
pacing_gate now (some p) none = none
pacing_gate now (some p) (some b) = window_gate now p b.runs_in_window b.newest_run_at

-- A pause with no cooldown.
unfoldable pub pause_gate : AccountState → Option Verdict
pause_gate s =
    if is_some s.paused_at && not (is_some s.cooldown_until)
    then some (refuse account_paused)
    else none

unfoldable pub until_gate : ℕ → Reason → Option ℕ → Option Verdict
until_gate now r none = none
until_gate now r (some t) = if ltb now t then some (wait r t) else none

unfoldable pub cooldown_gate : ℕ → AccountState → Option Verdict
unfolding until_gate
cooldown_gate now s = until_gate now cooling s.cooldown_until

-- The runs of the account's present day.
abbrev pub runs_on : ℕ → ℕ → Option ℕ → ℕ
runs_on today runs none = 0
runs_on today runs (some d) = if d == today then runs else 0

abbrev pub runs_of_today : (ℕ → ℕ) → ℕ → AccountState → ℕ
runs_of_today wall now s = runs_on (account_day_key wall now) s.runs_today s.runs_today_date

unfoldable pub daily_gate : (ℕ → ℕ) → SafetyConfig → ℕ → AccountState → Option Verdict
daily_gate wall c now s =
    if leb c.account_daily_limit (runs_of_today wall now s)
    then some (wait (daily_limit c.account_daily_limit) (next_account_day_start wall now))
    else none

-- On an anonymous surface a limit of 0 is no limit.
unfoldable pub anonymous_daily_gate : (ℕ → ℕ) → SafetyConfig → ℕ → AccountState → Option Verdict
unfolding daily_gate
anonymous_daily_gate wall c now s =
    if ltb 0 c.account_daily_limit then daily_gate wall c now s else none

abbrev pub or_else : Option ℕ → ℕ → ℕ
or_else none d = d
or_else (some n) d = n

abbrev pub after_hour : ℕ → Option ℕ → ℕ
after_hour now oldest = or_else oldest now + 60 * 60000 + 1000

unfoldable pub limit_gate : ℕ → Option ℕ → AccountState → Option Verdict
limit_gate now none s = none
limit_gate now (some limit) s =
    if leb limit s.runs_last_hour
    then some (
        wait (hourly_limit limit) (
          if ltb now (after_hour now s.hour_window_oldest)
          then after_hour now s.hour_window_oldest
          else now + 60000))
    else none

-- A missing limit reads as infinity, which is not finite.
unfoldable pub hourly_gate : SafetyConfig → ℕ → AccountState → Option Verdict
unfolding limit_gate
hourly_gate c now s = limit_gate now c.account_hourly_limit s

unfoldable pub spacing_gate : ℕ → ℕ → Option ℕ → Option Verdict
unfolding until_gate
spacing_gate now gap none = none
spacing_gate now gap (some last) =
    if ltb 0 gap then until_gate now (too_soon ((gap + 999) / 1000)) (some (last + gap)) else none

unfoldable pub interval_gate : SafetyConfig → ℕ → AccountState → Option Verdict
unfolding spacing_gate
interval_gate c now s = spacing_gate now (or_else c.min_inter_run_ms 0) s.last_run_at

-- ANONYMOUS_SURFACES_THAT_RATE_LIMIT.
abbrev pub rate_limits_anonymous : String → Bool
rate_limits_anonymous p = str_eq p "doubao"

unfoldable pub anonymous_gates : (ℕ → ℕ) → SafetyConfig → ℕ → AccountState → Verdict
anonymous_gates wall c now s =
    pause_gate s
    orelse anonymous_daily_gate wall c now s
    orelse hourly_gate c now s
    orelse interval_gate c now s
    orelse admit

unfoldable pub stored_gates : (ℕ → ℕ) → SafetyConfig → ℕ → AccountState → Verdict
stored_gates wall c now s =
    pause_gate s
    orelse cooldown_gate now s
    orelse daily_gate wall c now s
    orelse interval_gate c now s
    orelse hourly_gate c now s
    orelse admit

unfoldable pub surface_gates : Registry → (ℕ → ℕ) → SafetyConfig → ℕ → AccountState → Verdict
surface_gates r wall c now s =
    if is_credential_free_surface r s.provider
    then (if rate_limits_anonymous s.provider then anonymous_gates wall c now s else admit)
    else stored_gates wall c now s

unfoldable pub classify_account_state :
    Registry
    → (ℕ → ℕ)
    → SafetyConfig
    → ℕ
    → Option Pacing
    → Option Burst
    → Option AccountState
    → Verdict
classify_account_state r wall c now p b none = admit
classify_account_state r wall c now p b (some s) =
    if s.enabled
    then (pacing_gate now p b orelse surface_gates r wall c now s)
    else refuse account_disabled
