-- ===== src/Worker/Job.antt =====
-- One job of the worker (`handleJob` of src/worker.js), as the trace of its effects and its end. What its
-- calls come to is observed beforehand; a call that rejects is `none`, or a flag that is false, and ends the
-- job by its exception. Logs and the texts of errors are left out.
pub mod Traces
pub mod Balance
pub mod Submission
pub mod Retries
use one_gl.Prelude.{
  ℕ, Bool, true, false, ◌&&◌, ◌||◌, not, Option, none, some, List, [], ◌∷◌, ◌++◌, if◌then◌else◌,
}
use one_gl.Account.State.{ErrorCode}
use one_gl.Account.Classify.{Verdict, Availability, available, temporary, permanent}
use one_gl.Account.Retry.{is_blocking, can_retry_outcome}
use one_gl.Batch.Outcome.{BatchStatus, aborted}
use one_gl.Batch.Plan.{Action, delay, skip, plan_job}

pub data RunStatus : Type 0 where
  run_success run_partial run_failed run_running : RunStatus

-- What `runOnePrompt` comes to.
pub record PromptOutcome : Type 0 where
  pub succeeded : Bool
  pub persist_error : Bool
  pub code : ErrorCode
  pub prompt_submitted : Option Bool

-- `some (some b)` of a replay is one that was made; `b` tells that its writing failed.
pub record World : Type 0 where
  pub adapter_known : Bool
  pub batch_row : Option (Option BatchStatus)
  pub existing_run : Option (Option RunStatus)
  pub prompt_found : Option Bool
  pub replay : Option (Option Bool)
  pub verdict : Option Verdict
  pub cooldown_waits : ℕ
  pub now : ℕ
  pub can_delay : Bool
  pub can_mark_skipped : Bool
  pub can_refresh : Bool
  -- `some false` is a lease that another worker has.
  pub lease : Option Bool
  pub can_begin : Bool
  pub has_session : Bool
  pub outcome : Option PromptOutcome
  pub can_record : Bool
  pub blocked : Bool

pub data Effect : Type 0 where
  skipped_marked progress_refreshed job_delayed : Effect
  slot_taken slot_released lease_taken lease_released : Effect
  run_begun prompt_run success_recorded failure_recorded : Effect

-- `unrecoverable` is BullMQ's error that forbids another attempt, `delayed` the one that is no failure;
-- `retryable` is any other exception.
pub data JobEnd : Type 0 where
  skipped replayed done delayed unrecoverable retryable : JobEnd

abbrev pub Trace : Type 0
Trace = List Effect × JobEnd

abbrev pub ends : JobEnd → Trace
ends end = ([], end)

abbrev pub emit : Effect → Trace → Trace
emit e (es, end) = (e ∷ es, end)

-- A call, and what follows if it does not reject.
abbrev pub call : Bool → Effect → Trace → Trace
call succeeds e t = if succeeds then emit e t else ends retryable

abbrev pub refreshed : World → JobEnd → Trace
refreshed w end = call w.can_refresh progress_refreshed (ends end)

abbrev pub skip_job : World → Trace
skip_job w = call w.can_mark_skipped skipped_marked (refreshed w skipped)

-- `finally`: the slot first, then the lease.
abbrev pub finally : Trace → Trace
finally (es, end) = (es ++ slot_released ∷ lease_released ∷ [], end)

-- A failed outcome after its failure was recorded.
unfoldable pub judge_failure : World → PromptOutcome → JobEnd
judge_failure w o =
    if w.blocked && is_blocking o.code
    then unrecoverable
    else if not (can_retry_outcome o.code o.prompt_submitted)
    then unrecoverable
    else retryable

-- A success that cannot be recorded is no error where the writing of the run failed.
abbrev pub try_record_success : World → PromptOutcome → Trace → Trace
try_record_success w o t = if o.succeeded && w.can_record then emit success_recorded t else t

unfoldable pub after_prompt : World → PromptOutcome → Trace
unfolding judge_failure
after_prompt w o =
    if o.persist_error
    then try_record_success w o (refreshed w retryable)
    else if o.succeeded
    then call w.can_record success_recorded (refreshed w done)
    else call w.can_record failure_recorded (refreshed w (judge_failure w o))

-- `runOnePrompt` sends the prompt, and may reject after it was sent.
abbrev pub run_prompt : World → Option PromptOutcome → Trace
run_prompt w none = emit prompt_run (ends retryable)
run_prompt w (some o) = emit prompt_run (after_prompt w o)

abbrev pub collect : World → Trace
collect w =
    call w.can_begin run_begun (if w.has_session then run_prompt w w.outcome else ends retryable)

-- Without a lease the slot goes back and the job waits; an exception of the acquisition goes past both.
abbrev pub with_lease : World → Option Bool → Trace
with_lease w none = ends retryable
with_lease w (some false) = emit slot_released (call w.can_delay job_delayed (ends delayed))
with_lease w (some true) = emit lease_taken (finally (collect w))

abbrev pub unavailable : World → Action → Trace
unavailable w (delay retry_at waits) = call w.can_delay job_delayed (ends delayed)
unavailable w (skip exhausted) = skip_job w

abbrev pub is_available : Availability → Bool
is_available available = true
is_available temporary = false
is_available permanent = false

unfoldable pub with_verdict : World → Option Verdict → Trace
unfolding plan_job after_prompt
with_verdict w none = ends retryable
with_verdict w (some v) =
    if is_available v.kind
    then emit slot_taken (with_lease w w.lease)
    else unavailable w (plan_job v w.cooldown_waits w.now)

-- A replay is of a run that is stored locally and was not written.
abbrev pub with_replay : World → Option (Option Bool) → Trace
with_replay w none = ends retryable
with_replay w (some none) = with_verdict w w.verdict
with_replay w (some (some persist_error)) =
    refreshed w (if persist_error then retryable else replayed)

abbrev pub with_prompt : World → Option Bool → Trace
with_prompt w none = ends retryable
with_prompt w (some false) = ends unrecoverable
with_prompt w (some true) = with_replay w w.replay

abbrev pub is_collected : Option RunStatus → Bool
is_collected none = false
is_collected (some run_success) = true
is_collected (some run_partial) = true
is_collected (some run_failed) = false
is_collected (some run_running) = false

abbrev pub with_existing : World → Option (Option RunStatus) → Trace
with_existing w none = ends retryable
with_existing w (some r) =
    if is_collected r then refreshed w skipped else with_prompt w w.prompt_found

abbrev pub is_aborted : BatchStatus → Bool
is_aborted aborted = true
is_aborted _ = false

abbrev pub with_batch : World → Option (Option BatchStatus) → Trace
with_batch w none = ends retryable
with_batch w (some none) = ends unrecoverable
with_batch w (some (some s)) = if is_aborted s then skip_job w else with_existing w w.existing_run

unfoldable pub handle_job : World → Trace
unfolding with_verdict
handle_job w = if w.adapter_known then with_batch w w.batch_row else ends unrecoverable
