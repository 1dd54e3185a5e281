-- ===== src/Tests/Account/Life.antt =====
-- Histories of the accounts: failures, cooldowns, pauses and the daily limit.
use one_gl.Tests.Account.{registry, wall, config, account}
use one_gl.Prelude.{◌+◌, ◌*◌, ◌≡◌, inl, refl, none, some, List, [], ◌∷◌, arith}
use one_gl.Account.State.{
  AccountState, doubao_timeout, database_error, rate_limited, network_error, page_changed, cooling,
  account_paused,
}
use one_gl.Providers.{is_credential_free_surface}
use one_gl.Account.Clock.{account_day_key}
use one_gl.Account.Classify.{
  classify_account_state, wait, refuse, pacing_gate, surface_gates, stored_gates, pause_gate,
  until_gate, cooldown_gate, daily_gate, limit_gate, hourly_gate, spacing_gate, interval_gate,
  window_gate,
}
use one_gl.Account.Retry.{infrastructure_error_codes, account_blocking_codes}
use one_gl.Account.Ops.{
  begin_account_run, record_account_failure, count_failure, cool_down, fail_metered, block_account,
}
use one_gl.Account.Life.{Event, run, step, checks, begins, leaves, failure}
use one_gl.Account.Life.Daily.{IsCapped, run-IsCapped}
use one_gl.Account.Life.Streak.{fail_all, SameGate, failure_streak-waits}
use one_gl.Account.Life.Block.{begin_account_run-strands}

abbrev limited_account : AccountState
limited_account = record account {
  status = rate_limited;
  cooldown_until = some 500000;
  paused_at = some 400000;
}

-- Two jobs pass the check before the first of them begins its run; a third leaves.
abbrev two_jobs : List Event
two_jobs =
    checks 2000000 none 3 none
    ∷ checks 2000500 none 3 none
    ∷ begins 2050000
    ∷ failure 2100000 doubao_timeout
    ∷ begins 2110000
    ∷ checks 3000000 none 5 none
    ∷ leaves
    ∷ []

run-IsCapped_example :
    IsCapped registry config 2
      (run registry wall config none (record { row = account; admitted = 0 }) two_jobs).row
unfolding is_credential_free_surface step account_day_key classify_account_state pacing_gate
    surface_gates stored_gates pause_gate until_gate cooldown_gate daily_gate limit_gate hourly_gate
    spacing_gate interval_gate begin_account_run record_account_failure window_gate count_failure
    cool_down fail_metered block_account infrastructure_error_codes account_blocking_codes
run-IsCapped_example =
    run-IsCapped registry wall config none 2 0 account two_jobs (omega arith) (omega arith)
      (
        omega arith,
        (
          omega arith,
          (omega arith, (omega arith, (omega arith, (omega arith, (omega arith, tt))))),
        ),
      )
      (
        omega arith,
        (
          omega arith,
          (omega arith, (omega arith, (omega arith, (omega arith, (omega arith, tt))))),
        ),
      )
      (record { stored = refl; capped = omega arith })

failure_streak-waits_example :
    let t = fail_all registry config account ((10, doubao_timeout) ∷ (20, page_changed) ∷ []) in
    SameGate account t
    × (classify_account_state registry wall config 40 none none
          (some (record_account_failure registry config 30 network_error t).0)
        ≡ wait cooling (30 + 60 * 60000))
unfolding is_credential_free_surface infrastructure_error_codes account_blocking_codes
failure_streak-waits_example =
    failure_streak-waits registry wall config account
      ((10, doubao_timeout) ∷ (20, page_changed) ∷ []) 30 network_error 40 refl refl refl
      ((refl, refl), ((refl, refl), tt)) (refl, refl) refl (omega arith)

begin_account_run-strands_example :
    classify_account_state registry wall config 900000 none none (
      some
        (record_account_failure registry config 700000 database_error
          (begin_account_run wall 600000 limited_account)).0)
    ≡ refuse account_paused
unfolding is_credential_free_surface infrastructure_error_codes
begin_account_run-strands_example =
    begin_account_run-strands registry wall config 600000 700000 900000 database_error 400000
      limited_account refl refl refl refl (inl refl)
