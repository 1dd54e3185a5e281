-- ===== src/Account/Life/Streak.antt =====
-- A streak of ordinary failures of src/accounts/safety.js, and the cooldown at its end.
use one_gl.Prelude.{
  ℕ, ◌+◌, ◌*◌, ◌<◌, ◌≤◌, ◌≡◌, refl, true, false, none, some, List, [], ◌∷◌, arith, length, ◌∙◌,
}
use one_gl.Providers.{Registry, is_credential_free_surface}
use one_gl.Account.State.{AccountState, SafetyConfig, ErrorCode, cooldown, cooling}
use one_gl.Account.Classify.{
  classify_account_state, wait, pacing_gate, surface_gates, stored_gates, pause_gate, cooldown_gate,
}
use one_gl.Account.Retry.{infrastructure_error_codes, account_blocking_codes}
use one_gl.Account.Ops.{record_account_failure, count_failure, cool_down}

-- A failure that counts: neither of the infrastructure nor one that blocks at once.
abbrev pub IsOrdinary : ErrorCode → Type 0
IsOrdinary code = (infrastructure_error_codes code ≡ false) × (account_blocking_codes code ≡ none)

abbrev pub AllOrdinary : List (ℕ × ErrorCode) → Type 0
AllOrdinary [] = Unit {0}
AllOrdinary ((now, code) ∷ es) = IsOrdinary code × AllOrdinary es

pub fail_all : Registry → SafetyConfig → AccountState → List (ℕ × ErrorCode) → AccountState
fail_all r c s [] = s
fail_all r c s ((now, code) ∷ es) = fail_all r c (record_account_failure r c now code s).0 es

-- Nothing of the row that a verdict reads has changed.
pub record SameGate (s t : AccountState) : Type 0 where
  pub provider : t.provider ≡ s.provider
  pub enabled : t.enabled ≡ s.enabled
  pub status : t.status ≡ s.status
  pub paused_at : t.paused_at ≡ s.paused_at
  pub cooldown_until : t.cooldown_until ≡ s.cooldown_until

module _ (r : Registry) (c : SafetyConfig) where
  record_account_failure-ordinary :
      (now : ℕ) (code : ErrorCode) (s : AccountState)
      → is_credential_free_surface r s.provider ≡ false
      → IsOrdinary code
      → record_account_failure r c now code s ≡ cool_down c now (count_failure now code s)
  unfolding record_account_failure
  record_account_failure-ordinary now code s stored (plain, free) = rw (plain, stored, free) refl

  -- A failure below the limit adds one to the count.
  pub ordinary_below :
      (now : ℕ) (code : ErrorCode) (s : AccountState)
      → is_credential_free_surface r s.provider ≡ false
      → IsOrdinary code
      → s.consecutive_failures + 1 < c.max_consecutive_failures
      → let t = (record_account_failure r c now code s).0 in
        SameGate s t × (t.consecutive_failures ≡ s.consecutive_failures + 1)
  unfolding cool_down count_failure
  ordinary_below now code s stored plain h =
      rw (record_account_failure-ordinary now code s stored plain) (ground arith)

  -- Ordinary failures that stay below the limit leave the gates of the row alone, and are counted
  -- one by one.
  fail_all-below :
      (s : AccountState) (es : List (ℕ × ErrorCode))
      → is_credential_free_surface r s.provider ≡ false
      → AllOrdinary es
      → s.consecutive_failures + length es < c.max_consecutive_failures
      → SameGate s (fail_all r c s es)
        × ((fail_all r c s es).consecutive_failures ≡ s.consecutive_failures + length es)
  unfolding fail_all
  fail_all-below s [] stored plain h = (
    record {
      provider = refl;
      enabled = refl;
      status = refl;
      paused_at = refl;
      cooldown_until = refl;
    },
    omega arith,
  )
  fail_all-below s ((now, code) ∷ es) stored plain h =
      let (same, count) = ordinary_below now code s stored plain.0 (omega arith) in
      let t = (record_account_failure r c now code s).0 in
      let (same', count') =
        fail_all-below t es (rw (same.provider) stored) plain.1 (rw count (omega arith)) in
      (
        record {
          provider = same'.provider ∙ same.provider;
          enabled = same'.enabled ∙ same.enabled;
          status = same'.status ∙ same.status;
          paused_at = same'.paused_at ∙ same.paused_at;
          cooldown_until = same'.cooldown_until ∙ same.cooldown_until;
        },
        omega arith,
      )

  -- The failure that reaches the limit starts the cooldown.
  ordinary_last :
      (now : ℕ) (code : ErrorCode) (s : AccountState)
      → is_credential_free_surface r s.provider ≡ false
      → IsOrdinary code
      → c.max_consecutive_failures ≤ s.consecutive_failures + 1
      → let t = (record_account_failure r c now code s).0 in
        (t.provider ≡ s.provider)
        × (t.enabled ≡ s.enabled)
        × (t.status ≡ cooldown)
        × (t.paused_at ≡ some now)
        × (t.cooldown_until ≡ some (now + c.cooldown_minutes * 60000))
  unfolding cool_down count_failure
  ordinary_last now code s stored plain h =
      rw (record_account_failure-ordinary now code s stored plain) (ground arith)

-- An enabled account with a stored login that cools until `t` waits for exactly that time.
pub classify_account_state-cooling :
    (r : Registry) (wall : ℕ → ℕ) (c : SafetyConfig) (now t : ℕ) (s : AccountState)
    → is_credential_free_surface r s.provider ≡ false
    → s.enabled ≡ true
    → s.cooldown_until ≡ some t
    → now < t
    → classify_account_state r wall c now none none (some s) ≡ wait cooling t
unfolding classify_account_state pacing_gate surface_gates stored_gates pause_gate cooldown_gate
classify_account_state-cooling r wall c now t s stored on until h = ground arith

module _ (r : Registry) (wall : ℕ → ℕ) (c : SafetyConfig) where
  -- From a row with no failures counted, ordinary failures one short of the limit leave status, pause
  -- and cooldown of an enabled account with a stored login as they were, and the next one makes it
  -- wait: at every time before the cooldown that starts there is over, the verdict is to wait until
  -- its end.
  pub failure_streak-waits :
      (s : AccountState) (es : List (ℕ × ErrorCode)) (now : ℕ) (code : ErrorCode) (later : ℕ)
      → is_credential_free_surface r s.provider ≡ false
      → s.enabled ≡ true
      → s.consecutive_failures ≡ 0
      → AllOrdinary es
      → IsOrdinary code
      → length es + 1 ≡ c.max_consecutive_failures
      → later < now + c.cooldown_minutes * 60000
      → let t = fail_all r c s es in
        SameGate s t
        × (classify_account_state r wall c later none none
              (some (record_account_failure r c now code t).0)
            ≡ wait cooling (now + c.cooldown_minutes * 60000))
  failure_streak-waits s es now code later stored on fresh plain last limit h =
      let (same, count) = fail_all-below r c s es stored plain (omega arith) in
      let t = fail_all r c s es in
      let end = ordinary_last r c now code t (rw (same.provider) stored) last (omega arith) in
      (
        same,
        classify_account_state-cooling r wall c later _ (record_account_failure r c now code t).0
            (rw (end.0, same.provider) stored) (end.1 ∙ same.enabled ∙ on) end.4 h,
      )
