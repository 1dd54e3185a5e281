-- ===== src/Account/Classify/Shape.antt =====
-- The shape of a verdict of src/accounts/safety.js: what stands beside each kind.
use one_gl.Prelude.{ℕ, ◌<◌, Bool, false, Option, none, some, arith, if-both}
use one_gl.Providers.{Registry, Pacing}
use one_gl.Account.State.{AccountState, SafetyConfig, Reason}
use one_gl.Account.Clock.{lt-next_account_day_start}
use one_gl.Account.Classify.{
  Availability, available, temporary, permanent, Verdict, Burst, ◌orelse◌, window_gate, pacing_gate,
  pause_gate, until_gate, cooldown_gate, daily_gate, anonymous_daily_gate, limit_gate, hourly_gate,
  spacing_gate, interval_gate, anonymous_gates, stored_gates, surface_gates, classify_account_state,
  admit, or_else,
}

-- An admission has neither reason nor time, a refusal has a reason and no time, and a wait has a
-- reason and a time after `now`; only a wait is paced.
abbrev pub Shape : ℕ → Availability → Option Reason → Option ℕ → Bool → Type 0
Shape now available none none false = Unit {0}
Shape now permanent (some r) none false = Unit {0}
Shape now temporary (some r) (some t) paced = now < t
Shape now _ _ _ _ = ⊥

abbrev pub IsSound : ℕ → Verdict → Type 0
IsSound now v = Shape now v.kind v.reason v.retry_at v.paced

-- What holds of the verdict of a gate, if it gives one.
abbrev pub OnVerdict : (Verdict → Type 0) → Option Verdict → Type 0
OnVerdict P none = Unit {0}
OnVerdict P (some v) = P v

pub orelse-OnVerdict :
    (P : Verdict → Type 0) (o : Option Verdict) (v : Verdict) → OnVerdict P o → P v → P (o orelse v)
orelse-OnVerdict P none v h k = k
orelse-OnVerdict P (some u) v h k = h

abbrev IsSoundGate : ℕ → Option Verdict → Type 0
IsSoundGate now = OnVerdict (IsSound now)

window_gate-IsSound :
    (now : ℕ) (p : Pacing) (used : ℕ) (newest : Option ℕ)
    → IsSoundGate now (window_gate now p used newest)
unfolding window_gate
window_gate-IsSound now p used none = tt
window_gate-IsSound now p used (some t) = ground arith

pacing_gate-IsSound :
    (now : ℕ) (p : Option Pacing) (b : Option Burst) → IsSoundGate now (pacing_gate now p b)
unfolding pacing_gate
pacing_gate-IsSound now none b = tt
pacing_gate-IsSound now (some p) none = tt
pacing_gate-IsSound now (some p) (some b) =
    window_gate-IsSound now p b.runs_in_window b.newest_run_at

pause_gate-IsSound : (now : ℕ) (s : AccountState) → IsSoundGate now (pause_gate s)
unfolding pause_gate
pause_gate-IsSound now s = ground arith

until_gate-IsSound : (now : ℕ) (r : Reason) (t : Option ℕ) → IsSoundGate now (until_gate now r t)
unfolding until_gate
until_gate-IsSound now r none = tt
until_gate-IsSound now r (some t) = ground arith

daily_gate-IsSound :
    (wall : ℕ → ℕ) (c : SafetyConfig) (now : ℕ) (s : AccountState)
    → IsSoundGate now (daily_gate wall c now s)
unfolding daily_gate
daily_gate-IsSound wall c now s = ground (arith, lt-next_account_day_start wall now)

anonymous_daily_gate-IsSound :
    (wall : ℕ → ℕ) (c : SafetyConfig) (now : ℕ) (s : AccountState)
    → IsSoundGate now (anonymous_daily_gate wall c now s)
unfolding anonymous_daily_gate
anonymous_daily_gate-IsSound wall c now s = ground (arith, lt-next_account_day_start wall now)

limit_gate-IsSound :
    (now : ℕ) (limit : Option ℕ) (s : AccountState) → IsSoundGate now (limit_gate now limit s)
unfolding limit_gate
limit_gate-IsSound now none s = tt
limit_gate-IsSound now (some l) s = ground arith

spacing_gate-IsSound : (now gap : ℕ) (last : Option ℕ) → IsSoundGate now (spacing_gate now gap last)
unfolding spacing_gate
spacing_gate-IsSound now gap none = tt
spacing_gate-IsSound now gap (some l) = ground arith

-- The chains of gates, from the last to the first.
module _ (wall : ℕ → ℕ) (c : SafetyConfig) (now : ℕ) (s : AccountState) where
  anonymous_gates-IsSound : IsSound now (anonymous_gates wall c now s)
  unfolding anonymous_gates hourly_gate interval_gate
  anonymous_gates-IsSound = orelse-OnVerdict (IsSound now) _ _ (pause_gate-IsSound now s) (
      orelse-OnVerdict (IsSound now) _ _ (anonymous_daily_gate-IsSound wall c now s) (
        orelse-OnVerdict (IsSound now) _ _ (limit_gate-IsSound now c.account_hourly_limit s) (
          orelse-OnVerdict (IsSound now) _ admit
            (spacing_gate-IsSound now (or_else c.min_inter_run_ms 0) s.last_run_at) tt)))

  stored_gates-IsSound : IsSound now (stored_gates wall c now s)
  unfolding stored_gates cooldown_gate hourly_gate interval_gate
  stored_gates-IsSound = orelse-OnVerdict (IsSound now) _ _ (pause_gate-IsSound now s) (
      orelse-OnVerdict (IsSound now) _ _ (until_gate-IsSound now _ s.cooldown_until) (
        orelse-OnVerdict (IsSound now) _ _ (daily_gate-IsSound wall c now s) (
          orelse-OnVerdict (IsSound now) _ _
            (spacing_gate-IsSound now (or_else c.min_inter_run_ms 0) s.last_run_at)
            (orelse-OnVerdict (IsSound now) _ admit
              (limit_gate-IsSound now c.account_hourly_limit s) tt))))

surface_gates-IsSound :
    (r : Registry) (wall : ℕ → ℕ) (c : SafetyConfig) (now : ℕ) (s : AccountState)
    → IsSound now (surface_gates r wall c now s)
unfolding surface_gates
surface_gates-IsSound r wall c now s =
    ground (arith, anonymous_gates-IsSound wall c now s, stored_gates-IsSound wall c now s)

-- In every state, at every time and with every configuration the verdict on an account is an
-- admission with neither reason nor time, or a refusal with a reason and no time, or a wait with a
-- reason and a time that lies after `now`; and only a wait is marked as paced.
pub classify_account_state-IsSound :
    (r : Registry) (wall : ℕ → ℕ) (c : SafetyConfig) (now : ℕ)
    → (p : Option Pacing) (b : Option Burst) (s : Option AccountState)
    → IsSound now (classify_account_state r wall c now p b s)
unfolding classify_account_state
classify_account_state-IsSound r wall c now p b none = tt
classify_account_state-IsSound r wall c now p b (some s) =
    if-both (IsSound now) s.enabled
      (orelse-OnVerdict (IsSound now) _ _ (pacing_gate-IsSound now p b)
        (surface_gates-IsSound r wall c now s))
      tt
