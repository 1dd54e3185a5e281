-- ===== src/Account/Life/Block.antt =====
-- What blocks an account for good, and what frees it again (src/accounts/safety.js).
use one_gl.Prelude.{
  ℕ, ◌+◌, ◌*◌, ◌<◌, ◌≡◌, ◌≢◌, refl, true, false, none, some, arith, ◌∙◌, ◌⊎◌, inl, inr,
}
use one_gl.Providers.{Registry, is_credential_free_surface}
use one_gl.Account.State.{
  AccountState, SafetyConfig, ErrorCode, cooling, rate_limit, rate_limited, account_paused,
}
use one_gl.Account.Classify.{
  classify_account_state, permanent, wait, refuse, pacing_gate, surface_gates, stored_gates,
  pause_gate, or_else,
}
use one_gl.Account.Classify.Refused.{classify_account_state-NotPermanent}
use one_gl.Account.Retry.{Blocking, infrastructure_error_codes, account_blocking_codes}
use one_gl.Account.Ops.{
  begin_account_run, record_account_failure, block_account, is_cooling, resume_account, is_blocked,
  sql_code,
}
use one_gl.Account.Life.Streak.{IsOrdinary, classify_account_state-cooling, ordinary_below}

-- An enabled account with a stored login that is paused with no cooldown is refused.
classify_account_state-paused :
    (r : Registry) (wall : ℕ → ℕ) (c : SafetyConfig) (now q : ℕ) (s : AccountState)
    → is_credential_free_surface r s.provider ≡ false
    → s.enabled ≡ true
    → s.paused_at ≡ some q
    → s.cooldown_until ≡ none
    → classify_account_state r wall c now none none (some s) ≡ refuse account_paused
unfolding classify_account_state pacing_gate surface_gates stored_gates pause_gate
classify_account_state-paused r wall c now q s stored on paused until = ground arith

module _ (r : Registry) (c : SafetyConfig) where
  record_account_failure-blocking :
      (now : ℕ) (code : ErrorCode) (b : Blocking) (s : AccountState)
      → is_credential_free_surface r s.provider ≡ false
      → infrastructure_error_codes code ≡ false
      → account_blocking_codes code ≡ some b
      → record_account_failure r c now code s ≡ block_account c now code b s
  unfolding record_account_failure
  record_account_failure-blocking now code b s stored plain e = rw (plain, stored, e) refl

  blocking_plain :
      (code : ErrorCode) (b : Blocking)
      → account_blocking_codes code ≡ some b
      → infrastructure_error_codes code ≡ false
  unfolding account_blocking_codes infrastructure_error_codes
  blocking_plain code b e = ground arith

begun_uncooled :
    (wall : ℕ → ℕ) (now : ℕ) (s : AccountState)
    → is_cooling s.status ≡ true
    → (begin_account_run wall now s).cooldown_until ≡ none
unfolding begin_account_run
begun_uncooled wall now s e = ground arith

record_account_failure-infra :
    (r : Registry) (c : SafetyConfig) (now : ℕ) (code : ErrorCode) (s : AccountState)
    → infrastructure_error_codes code ≡ true
    → (record_account_failure r c now code s).0 ≡ s
unfolding record_account_failure
record_account_failure-infra r c now code s e = rw e refl

-- An error of the infrastructure, and any failure on a surface without a credential, leaves the row
-- as it was and reports no block; every other failure puts its code into the row.
record_account_failure-metered :
    (r : Registry) (c : SafetyConfig) (now : ℕ) (code : ErrorCode) (s : AccountState)
    → ((infrastructure_error_codes code ≡ true) ⊎ (is_credential_free_surface r s.provider ≡ true)
        → ((record_account_failure r c now code s).0 ≡ s)
          × (is_blocked (record_account_failure r c now code s).1 ≡ false))
      × (infrastructure_error_codes code ≡ false
          → is_credential_free_surface r s.provider ≡ false
          → (record_account_failure r c now code s).0.last_error_code ≡ sql_code code)
unfolding record_account_failure
record_account_failure-metered r c now code s = (spared, metered)
  where
    spared :
        (infrastructure_error_codes code ≡ true) ⊎ (is_credential_free_surface r s.provider ≡ true)
        → ((record_account_failure r c now code s).0 ≡ s)
          × (is_blocked (record_account_failure r c now code s).1 ≡ false)
    spared h = ground arith

    metered :
        infrastructure_error_codes code ≡ false
        → is_credential_free_surface r s.provider ≡ false
        → (record_account_failure r c now code s).0.last_error_code ≡ sql_code code
    metered e f = ground arith

module _ (r : Registry) (wall : ℕ → ℕ) (c : SafetyConfig) where
  -- A failure that needs a person (login, session, verification, restriction) makes an enabled account
  -- with a stored login refused at every later or earlier time, with no time to retry; once the
  -- account is resumed it is never refused.
  manual_failure-refuses :
      (now later : ℕ) (code : ErrorCode) (b : Blocking) (s : AccountState)
      → is_credential_free_surface r s.provider ≡ false
      → s.enabled ≡ true
      → account_blocking_codes code ≡ some b
      → b.manual ≡ true
      → let t = (record_account_failure r c now code s).0 in
        (classify_account_state r wall c later none none (some t) ≡ refuse account_paused)
        × ((classify_account_state r wall c later none none (some (resume_account t))).kind
            ≢ permanent)
  unfolding block_account
  manual_failure-refuses now later code b s stored on e manual =
      rw (record_account_failure-blocking r c now code b s stored (blocking_plain r c code b e) e) (
        classify_account_state-paused r wall c later now (block_account c now code b s).0 stored on
            refl (rw manual),
        classify_account_state-NotPermanent r wall c later none none _ (unfold resume_account in on)
            (unfold resume_account pause_gate in refl),
      )

  -- A rate limit makes an enabled account with a stored login wait for exactly the configured time,
  -- which is the general cooldown where no time for rate limits is configured.
  rate_limit-waits :
      (now later : ℕ) (s : AccountState)
      → is_credential_free_surface r s.provider ≡ false
      → s.enabled ≡ true
      → let until = now + or_else c.rate_limit_cooldown_minutes c.cooldown_minutes * 60000 in
        later < until
        → classify_account_state r wall c later none none
            (some (record_account_failure r c now rate_limit s).0)
          ≡ wait cooling until
  rate_limit-waits now later s stored on h =
      let b : Blocking = record { status = rate_limited; manual = false } in
      rw
        (record_account_failure-blocking r c now rate_limit b s stored
          (unfold infrastructure_error_codes in refl) (unfold account_blocking_codes in refl))
        (unfold block_account in
          classify_account_state-cooling r wall c later _ (block_account c now rate_limit b s).0
            stored on refl h)

  -- The row right after the start of that run.
  stranded :
      (later q now : ℕ) (s : AccountState)
      → is_credential_free_surface r s.provider ≡ false
      → s.enabled ≡ true
      → is_cooling s.status ≡ true
      → s.paused_at ≡ some q
      → classify_account_state r wall c later none none (some (begin_account_run wall now s))
        ≡ refuse account_paused
  stranded later q now s stored on cooling_down paused =
      classify_account_state-paused r wall c later q (begin_account_run wall now s)
        (unfold begin_account_run in stored) (unfold begin_account_run in on)
        (unfold begin_account_run in paused) (begun_uncooled wall now s cooling_down)

  -- The start of the first run after a cooldown drops the cooldown and keeps the pause. So a run that
  -- then ends in an error of the infrastructure, or in an ordinary failure below the limit, leaves an
  -- enabled account with a stored login refused at every time, though it only ever had to wait.
  pub begin_account_run-strands :
      (now fail later : ℕ) (code : ErrorCode) (q : ℕ) (s : AccountState)
      → is_credential_free_surface r s.provider ≡ false
      → s.enabled ≡ true
      → is_cooling s.status ≡ true
      → s.paused_at ≡ some q
      → (infrastructure_error_codes code ≡ true)
        ⊎ (IsOrdinary code × (s.consecutive_failures + 1 < c.max_consecutive_failures))
      → classify_account_state r wall c later none none
          (some (record_account_failure r c fail code (begin_account_run wall now s)).0)
        ≡ refuse account_paused
  begin_account_run-strands now fail later code q s stored on cooling_down paused (inl infra) =
      rw (record_account_failure-infra r c fail code (begin_account_run wall now s) infra)
        (stranded later q now s stored on cooling_down paused)
  begin_account_run-strands now fail later code q s stored on cooling_down paused (inr (plain, h)) =
      let t = begin_account_run wall now s in
      let (same, _) =
        ordinary_below r c fail code t (unfold begin_account_run in stored) plain
          (unfold begin_account_run in h) in
      classify_account_state-paused r wall c later q (record_account_failure r c fail code t).0
        (rw (same.provider) (unfold begin_account_run in stored))
        (same.enabled ∙ unfold begin_account_run in on)
        (same.paused_at ∙ unfold begin_account_run in paused)
        (same.cooldown_until ∙ begun_uncooled wall now s cooling_down)
