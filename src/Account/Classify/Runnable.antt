-- ===== src/Account/Classify/Runnable.antt =====
-- When src/accounts/safety.js lets an account run, said without the order of its guards.
use one_gl.Prelude.{
  ℕ, ◌+◌, ◌<◌, ◌≤◌, ◌≡◌, ◌≢◌, ◌↔◌, refl, Bool, true, false, Option, none, some, arith,
  if◌then◌else◌,
}
use one_gl.Providers.{Registry, Pacing, is_credential_free_surface}
use one_gl.Account.State.{AccountState, SafetyConfig, Reason, account_disabled}
use one_gl.Account.Classify.{
  available, Verdict, Burst, ◌orelse◌, window_gate, pacing_gate, pause_gate, until_gate,
  cooldown_gate, daily_gate, anonymous_daily_gate, limit_gate, hourly_gate, spacing_gate,
  interval_gate, rate_limits_anonymous, anonymous_gates, stored_gates, surface_gates,
  classify_account_state, admit, refuse, or_else, runs_of_today,
}

-- The burst window is not spent, or its pause is over.
abbrev pub WindowLeft : ℕ → Option Pacing → Option Burst → Type 0
WindowLeft now none b = Unit {0}
WindowLeft now (some p) none = Unit {0}
WindowLeft now (some p) (some b) =
    (t : ℕ) → b.newest_run_at ≡ some t → p.prompts ≤ b.runs_in_window → t + p.pause_ms ≤ now

abbrev pub Passed : ℕ → Option ℕ → Type 0
Passed now none = Unit {0}
Passed now (some t) = t ≤ now

-- A pause stands only beside a cooldown.
abbrev pub NotPaused : Option ℕ → Option ℕ → Type 0
NotPaused none c = Unit {0}
NotPaused (some t) none = ⊥
NotPaused (some t) (some c) = Unit {0}

abbrev pub UnderHourly : Option ℕ → ℕ → Type 0
UnderHourly none runs = Unit {0}
UnderHourly (some l) runs = runs < l

abbrev pub Spaced : ℕ → ℕ → Option ℕ → Type 0
Spaced now gap none = Unit {0}
Spaced now gap (some last) = 0 < gap → last + gap ≤ now

-- What the anonymous surface with a measured rate limit asks for.
pub record AnonymousRunnable (wall : ℕ → ℕ) (c : SafetyConfig) (now : ℕ) (s : AccountState)
    : Type 0 where
  pub not_paused : NotPaused s.paused_at s.cooldown_until
  pub under_daily : 0 < c.account_daily_limit → runs_of_today wall now s < c.account_daily_limit
  pub under_hourly : UnderHourly c.account_hourly_limit s.runs_last_hour
  pub spaced : Spaced now (or_else c.min_inter_run_ms 0) s.last_run_at

-- What a surface with a stored login asks for.
pub record StoredRunnable (wall : ℕ → ℕ) (c : SafetyConfig) (now : ℕ) (s : AccountState)
    : Type 0 where
  pub not_paused : NotPaused s.paused_at s.cooldown_until
  pub cooled : Passed now s.cooldown_until
  pub under_daily : runs_of_today wall now s < c.account_daily_limit
  pub spaced : Spaced now (or_else c.min_inter_run_ms 0) s.last_run_at
  pub under_hourly : UnderHourly c.account_hourly_limit s.runs_last_hour

abbrev pub SurfaceRunnable : Registry → (ℕ → ℕ) → SafetyConfig → ℕ → AccountState → Type 0
SurfaceRunnable r wall c now s =
    (is_credential_free_surface r s.provider ≡ true
      → rate_limits_anonymous s.provider ≡ true
      → AnonymousRunnable wall c now s)
    × (is_credential_free_surface r s.provider ≡ false → StoredRunnable wall c now s)

abbrev IsAvailable : Verdict → Type 0
IsAvailable v = v.kind ≡ available

abbrev NeverAvailable : Option Verdict → Type 0
NeverAvailable none = Unit {0}
NeverAvailable (some v) = v.kind ≢ available

-- A gate that lets pass exactly what meets `C`.
abbrev Decides : Type 0 → Option Verdict → Type 0
Decides C o = (o ≡ none → C) × (C → o ≡ none) × NeverAvailable o

orelse-IsAvailable :
    {C D : Type 0} (o : Option Verdict) (v : Verdict)
    → Decides C o
    → (IsAvailable v → D) × (D → IsAvailable v)
    → (IsAvailable (o orelse v) → C × D) × (C × D → IsAvailable (o orelse v))
orelse-IsAvailable none v d e = (λ h. (d.0 refl, e.0 h), λ h. e.1 h.1)
orelse-IsAvailable (some u) v d e = (λ h. absurd (d.2 h), λ h. cc (d.1 h.0))

window_gate-Decides :
    (now : ℕ) (p : Pacing) (used : ℕ) (newest : Option ℕ)
    → Decides
        ((t : ℕ) → newest ≡ some t → p.prompts ≤ used → t + p.pause_ms ≤ now)
        (window_gate now p used newest)
unfolding window_gate
window_gate-Decides now p used none = (λ _ t e. cc, λ _. refl, tt)
window_gate-Decides now p used (some x) =
    (λ h t e le. ground arith, λ h. ground (arith, h x), ground arith)

pacing_gate-Decides :
    (now : ℕ) (p : Option Pacing) (b : Option Burst)
    → Decides (WindowLeft now p b) (pacing_gate now p b)
unfolding pacing_gate
pacing_gate-Decides now none b = (λ _. tt, λ _. refl, tt)
pacing_gate-Decides now (some p) none = (λ _. tt, λ _. refl, tt)
pacing_gate-Decides now (some p) (some b) =
    window_gate-Decides now p b.runs_in_window b.newest_run_at

pause_gate-Decides :
    (s : AccountState) → Decides (NotPaused s.paused_at s.cooldown_until) (pause_gate s)
unfolding pause_gate
pause_gate-Decides s = (λ h. ground arith, λ h. ground arith, ground arith)

until_gate-Decides :
    (now : ℕ) (r : Reason) (t : Option ℕ) → Decides (Passed now t) (until_gate now r t)
unfolding until_gate
until_gate-Decides now r none = (λ _. tt, λ _. refl, tt)
until_gate-Decides now r (some t) = (λ h. ground arith, λ h. ground arith, ground arith)

daily_gate-Decides :
    (wall : ℕ → ℕ) (c : SafetyConfig) (now : ℕ) (s : AccountState)
    → Decides (runs_of_today wall now s < c.account_daily_limit) (daily_gate wall c now s)
unfolding daily_gate
daily_gate-Decides wall c now s = (λ h. ground arith, λ h. ground arith, ground arith)

anonymous_daily_gate-Decides :
    (wall : ℕ → ℕ) (c : SafetyConfig) (now : ℕ) (s : AccountState)
    → Decides
        (0 < c.account_daily_limit → runs_of_today wall now s < c.account_daily_limit)
        (anonymous_daily_gate wall c now s)
unfolding anonymous_daily_gate
anonymous_daily_gate-Decides wall c now s = (λ h p. ground arith, λ h. ground arith, ground arith)

limit_gate-Decides :
    (now : ℕ) (limit : Option ℕ) (s : AccountState)
    → Decides (UnderHourly limit s.runs_last_hour) (limit_gate now limit s)
unfolding limit_gate
limit_gate-Decides now none s = (λ _. tt, λ _. refl, tt)
limit_gate-Decides now (some l) s = (λ h. ground arith, λ h. ground arith, ground arith)

spacing_gate-Decides :
    (now gap : ℕ) (last : Option ℕ) → Decides (Spaced now gap last) (spacing_gate now gap last)
unfolding spacing_gate
spacing_gate-Decides now gap none = (λ _. tt, λ _. refl, tt)
spacing_gate-Decides now gap (some l) = (λ h p. ground arith, λ h. ground arith, ground arith)

module _ (wall : ℕ → ℕ) (c : SafetyConfig) (now : ℕ) (s : AccountState) where
  anonymous_gates-IsAvailable :
      (IsAvailable (anonymous_gates wall c now s) → AnonymousRunnable wall c now s)
      × (AnonymousRunnable wall c now s → IsAvailable (anonymous_gates wall c now s))
  unfolding anonymous_gates hourly_gate interval_gate
  anonymous_gates-IsAvailable =
      let chain = orelse-IsAvailable _ _ (pause_gate-Decides s) (
        orelse-IsAvailable _ _ (anonymous_daily_gate-Decides wall c now s) (
          orelse-IsAvailable _ _ (limit_gate-Decides now c.account_hourly_limit s) (
            orelse-IsAvailable {D = Unit {0}} _ admit
              (spacing_gate-Decides now (or_else c.min_inter_run_ms 0) s.last_run_at)
              (λ _. tt, λ _. refl)))) in
      (
        λ h.
            let (a, (b, (d, (e, _)))) = chain.0 h in
            record { not_paused = a; under_daily = b; under_hourly = d; spaced = e },
        λ k. chain.1 (k.not_paused, (k.under_daily, (k.under_hourly, (k.spaced, tt)))),
      )

  stored_gates-IsAvailable :
      (IsAvailable (stored_gates wall c now s) → StoredRunnable wall c now s)
      × (StoredRunnable wall c now s → IsAvailable (stored_gates wall c now s))
  unfolding stored_gates cooldown_gate hourly_gate interval_gate
  stored_gates-IsAvailable =
      let chain = orelse-IsAvailable _ _ (pause_gate-Decides s) (
        orelse-IsAvailable _ _ (until_gate-Decides now _ s.cooldown_until) (
          orelse-IsAvailable _ _ (daily_gate-Decides wall c now s) (
            orelse-IsAvailable _ _
              (spacing_gate-Decides now (or_else c.min_inter_run_ms 0) s.last_run_at)
              (orelse-IsAvailable {D = Unit {0}} _ admit
                (limit_gate-Decides now c.account_hourly_limit s) (λ _. tt, λ _. refl))))) in
      (
        λ h.
            let (a, (b, (d, (e, (f, _))))) = chain.0 h in
            record { not_paused = a; cooled = b; under_daily = d; spaced = e; under_hourly = f },
        λ k. chain.1 (k.not_paused, (k.cooled, (k.under_daily, (k.spaced, (k.under_hourly, tt))))),
      )

surface_gates-IsAvailable :
    (r : Registry) (wall : ℕ → ℕ) (c : SafetyConfig) (now : ℕ) (s : AccountState)
    → (IsAvailable (surface_gates r wall c now s) → SurfaceRunnable r wall c now s)
      × (SurfaceRunnable r wall c now s → IsAvailable (surface_gates r wall c now s))
unfolding surface_gates
surface_gates-IsAvailable r wall c now s = split _ _ refl refl
  where
    split :
        (free limited : Bool)
        → is_credential_free_surface r s.provider ≡ free
        → rate_limits_anonymous s.provider ≡ limited
        → (IsAvailable (surface_gates r wall c now s) → SurfaceRunnable r wall c now s)
          × (SurfaceRunnable r wall c now s → IsAvailable (surface_gates r wall c now s))
    split true true e f =
        rw (e, f)
          (
            λ h. (λ _ _. (anonymous_gates-IsAvailable wall c now s).0 h, λ g. cc),
            λ k. (anonymous_gates-IsAvailable wall c now s).1 (k.0 refl refl),
          )
    split true false e f = rw (e, f) (λ h. (λ _ g. cc, λ g. cc), λ k. refl)
    split false l e f = rw e (
      λ h. (λ g _. cc, λ _. (stored_gates-IsAvailable wall c now s).0 h),
      λ k. (stored_gates-IsAvailable wall c now s).1 (k.1 refl),
    )

-- An account whose row exists may run exactly when it is enabled, the burst window is not spent or
-- its pause is over, and its surface allows it: a rate-limited anonymous surface asks for no pause
-- without a cooldown, runs under the daily limit (if that is not 0) and under the hourly limit, and
-- the interval since the last run; a surface with a stored login asks for the same with every daily
-- limit, and for a cooldown that is over; any other anonymous surface asks for nothing.
pub classify_account_state-available_iff :
    (r : Registry) (wall : ℕ → ℕ) (c : SafetyConfig) (now : ℕ)
    → (p : Option Pacing) (b : Option Burst) (s : AccountState)
    → ((classify_account_state r wall c now p b (some s)).kind ≡ available)
      ↔ ((s.enabled ≡ true) × WindowLeft now p b × SurfaceRunnable r wall c now s)
unfolding classify_account_state
classify_account_state-available_iff r wall c now p b s = split s.enabled
  where
    gates :
        (IsAvailable (pacing_gate now p b orelse surface_gates r wall c now s)
          → WindowLeft now p b × SurfaceRunnable r wall c now s)
        × (WindowLeft now p b × SurfaceRunnable r wall c now s
            → IsAvailable (pacing_gate now p b orelse surface_gates r wall c now s))
    gates =
        orelse-IsAvailable {D = SurfaceRunnable r wall c now s} _ _ (pacing_gate-Decides now p b)
          (surface_gates-IsAvailable r wall c now s)

    split :
        (on : Bool)
        → (IsAvailable (
            if on
            then (pacing_gate now p b orelse surface_gates r wall c now s)
            else refuse account_disabled))
          ↔ ((on ≡ true) × WindowLeft now p b × SurfaceRunnable r wall c now s)
    split true = (λ h. (refl, (gates.0 h).0, (gates.0 h).1), λ k. gates.1 (k.1, k.2))
    split false = (λ h. cc, λ k. cc)
