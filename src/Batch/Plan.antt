-- ===== src/Batch/Plan.antt =====
-- src/queue/job-plan.js, and its use in `handleJob` of src/worker.js: a job whose account cannot run is
-- delayed or skipped.
pub mod Waits
use one_gl.Prelude.{ℕ, suc, ◌+◌, Bool, true, false, Option, none, some, if◌then◌else◌, ltb, max}
use one_gl.Account.State.{Reason}
use one_gl.Account.Classify.{Verdict, Availability, available, temporary, permanent}

pub data Action : Type 0 where
  -- retryAt, cooldownWaits
  delay : ℕ → ℕ → Action
  -- exhausted
  skip : Bool → Action

-- `availability.kind === TEMPORARY && availability.retryAt`
unfoldable pub plan_for : Availability → Option ℕ → ℕ → ℕ → ℕ → Action
plan_for temporary (some t) waits limit now =
    if ltb waits limit then delay (max t (now + 1000)) (waits + 1) else skip true
plan_for temporary none waits limit now = skip false
plan_for available t waits limit now = skip false
plan_for permanent t waits limit now = skip false

unfoldable pub plan_unavailable_job : Verdict → ℕ → ℕ → ℕ → Action
unfolding plan_for
plan_unavailable_job v waits limit now = plan_for v.kind v.retry_at waits limit now

abbrev pub max_cooldown_waits : ℕ
max_cooldown_waits = 3

abbrev pub max_paced_waits : ℕ
max_paced_waits = 120

-- The call in `handleJob`: the limit depends on whether this wait is paced.
unfoldable pub plan_job : Verdict → ℕ → ℕ → Action
unfolding plan_unavailable_job
plan_job v waits now =
    plan_unavailable_job v waits (if v.paced then max_paced_waits else max_cooldown_waits) now
