-- ===== src/Account/Classify/Refused.antt =====
-- When src/accounts/safety.js refuses an account for good.
use one_gl.Prelude.{
  ℕ, ◌≡◌, ◌≢◌, ◌⊎◌, inl, inr, refl, Bool, true, false, Option, none, some, arith, if-both,
  if◌then◌else◌,
}
use one_gl.Providers.{Registry, Pacing, is_credential_free_surface}
use one_gl.Account.State.{AccountState, SafetyConfig, Reason, account_disabled}
use one_gl.Account.Classify.{
  permanent, Verdict, Burst, ◌orelse◌, window_gate, pacing_gate, pause_gate, until_gate,
  cooldown_gate, daily_gate, anonymous_daily_gate, limit_gate, hourly_gate, spacing_gate,
  interval_gate, rate_limits_anonymous, anonymous_gates, stored_gates, surface_gates,
  classify_account_state, admit, refuse, or_else,
}
use one_gl.Account.Classify.Shape.{OnVerdict, orelse-OnVerdict}

abbrev NotPermanent : Verdict → Type 0
NotPermanent v = v.kind ≢ permanent

pacing_gate-NotPermanent :
    (now : ℕ) (p : Option Pacing) (b : Option Burst) → OnVerdict NotPermanent (pacing_gate now p b)
unfolding pacing_gate
pacing_gate-NotPermanent now none b = tt
pacing_gate-NotPermanent now (some p) none = tt
pacing_gate-NotPermanent now (some p) (some b) = window b.newest_run_at
  where
    window :
        (newest : Option ℕ) → OnVerdict NotPermanent (window_gate now p b.runs_in_window newest)
    window none = tt
    window (some t) = ground arith

until_gate-NotPermanent :
    (now : ℕ) (r : Reason) (t : Option ℕ) → OnVerdict NotPermanent (until_gate now r t)
unfolding until_gate
until_gate-NotPermanent now r none = tt
until_gate-NotPermanent now r (some t) = ground arith

daily_gates-NotPermanent :
    (wall : ℕ → ℕ) (c : SafetyConfig) (now : ℕ) (s : AccountState)
    → OnVerdict NotPermanent (daily_gate wall c now s)
      × OnVerdict NotPermanent (anonymous_daily_gate wall c now s)
unfolding anonymous_daily_gate
daily_gates-NotPermanent wall c now s = (ground arith, ground arith)

limit_gate-NotPermanent :
    (now : ℕ) (limit : Option ℕ) (s : AccountState)
    → OnVerdict NotPermanent (limit_gate now limit s)
unfolding limit_gate
limit_gate-NotPermanent now none s = tt
limit_gate-NotPermanent now (some l) s = ground arith

spacing_gate-NotPermanent :
    (now gap : ℕ) (last : Option ℕ) → OnVerdict NotPermanent (spacing_gate now gap last)
unfolding spacing_gate
spacing_gate-NotPermanent now gap none = tt
spacing_gate-NotPermanent now gap (some l) = ground arith

module _ (wall : ℕ → ℕ) (c : SafetyConfig) (now : ℕ) (s : AccountState)
    (go : pause_gate s ≡ none) where
  anonymous_gates-NotPermanent : NotPermanent (anonymous_gates wall c now s)
  unfolding anonymous_gates hourly_gate interval_gate
  anonymous_gates-NotPermanent = rw go (
      orelse-OnVerdict NotPermanent _ _ (daily_gates-NotPermanent wall c now s).1 (
        orelse-OnVerdict NotPermanent _ _ (limit_gate-NotPermanent now c.account_hourly_limit s) (
          orelse-OnVerdict NotPermanent _ admit
            (spacing_gate-NotPermanent now (or_else c.min_inter_run_ms 0) s.last_run_at)
            (λ e. cc))))

  stored_gates-NotPermanent : NotPermanent (stored_gates wall c now s)
  unfolding stored_gates cooldown_gate hourly_gate interval_gate
  stored_gates-NotPermanent = rw go (
      orelse-OnVerdict NotPermanent _ _ (until_gate-NotPermanent now _ s.cooldown_until) (
        orelse-OnVerdict NotPermanent _ _ (daily_gates-NotPermanent wall c now s).0 (
          orelse-OnVerdict NotPermanent _ _
            (spacing_gate-NotPermanent now (or_else c.min_inter_run_ms 0) s.last_run_at)
            (orelse-OnVerdict NotPermanent _ admit
              (limit_gate-NotPermanent now c.account_hourly_limit s) (λ e. cc)))))

-- A row that is enabled, and has no pause without a cooldown, is never refused.
pub classify_account_state-NotPermanent :
    (r : Registry) (wall : ℕ → ℕ) (c : SafetyConfig) (now : ℕ)
    → (p : Option Pacing) (b : Option Burst) (s : AccountState) → s.enabled ≡ true
    → pause_gate s ≡ none
    → (classify_account_state r wall c now p b (some s)).kind ≢ permanent
unfolding classify_account_state surface_gates
classify_account_state-NotPermanent r wall c now p b s on go = gate s.enabled on
  where
    gates : NotPermanent (pacing_gate now p b orelse surface_gates r wall c now s)
    gates = orelse-OnVerdict NotPermanent _ _ (pacing_gate-NotPermanent now p b) (
        if-both NotPermanent (is_credential_free_surface r s.provider)
          (if-both NotPermanent (rate_limits_anonymous s.provider)
            (anonymous_gates-NotPermanent wall c now s go) (λ e. cc))
          (stored_gates-NotPermanent wall c now s go))

    gate :
        (on : Bool)
        → on ≡ true
        → NotPermanent (
            if on
            then (pacing_gate now p b orelse surface_gates r wall c now s)
            else refuse account_disabled)
    gate true e = gates
    gate false e = cc

-- A refused account is disabled, or it is paused and no cooldown is set: so whatever resets the pause
-- or sets a cooldown ends every refusal of an enabled account.
pub classify_account_state-refused :
    (r : Registry) (wall : ℕ → ℕ) (c : SafetyConfig) (now : ℕ)
    → (p : Option Pacing) (b : Option Burst) (s : AccountState)
    → (classify_account_state r wall c now p b (some s)).kind ≡ permanent
    → (s.enabled ≡ false) ⊎ ((s.paused_at ≢ none) × (s.cooldown_until ≡ none))
classify_account_state-refused r wall c now p b s h =
    split s.enabled s.paused_at s.cooldown_until refl refl refl
  where
    refused : s.enabled ≡ true → pause_gate s ≡ none → ⊥
    refused on go = classify_account_state-NotPermanent r wall c now p b s on go h

    split :
        (on : Bool) (q u : Option ℕ)
        → s.enabled ≡ on
        → s.paused_at ≡ q
        → s.cooldown_until ≡ u
        → (on ≡ false) ⊎ ((q ≢ none) × (u ≡ none))
    split false q u e f g = inl refl
    split true none u e f g = absurd (refused e (unfold pause_gate in ground arith))
    split true (some t) (some v) e f g = absurd (refused e (unfold pause_gate in ground arith))
    split true (some t) none e f g = inr (λ k. cc, refl)
