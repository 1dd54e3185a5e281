-- ===== src/Worker/Job/Retries.antt =====
-- Which jobs of src/worker.js that sent a prompt end so that the queue runs them again.
use one_gl.Prelude.{
  ◌≡◌, ◌≢◌, refl, sym, ap, subst, ◌∙◌, true, false, none, some, if-both, sum_by, arith,
}
use one_gl.Account.Retry.{can_retry_outcome}
use one_gl.Worker.Job.{
  World, Effect, slot_taken, run_begun, retryable, emit, PromptOutcome, refreshed, judge_failure,
  after_prompt, run_prompt, collect, finally, with_lease, handle_job,
}
use one_gl.Worker.Job.Balance.{is_slot_taken, is_slot_released}
use one_gl.Worker.Job.Submission.{
  prompts, IsAdmitted, handle_job-IsAdmitted, handle_job-sends, finally-prompts,
}

-- A prompt that failed and may be retried.
abbrev pub IsRetriable : PromptOutcome → Type 0
IsRetriable o = (o.succeeded ≡ false) × (can_retry_outcome o.code o.prompt_submitted ≡ true)

after_prompt-retries :
    (w : World) (o : PromptOutcome)
    → o.persist_error ≡ false
    → w.can_record ≡ true
    → w.can_refresh ≡ true
    → (after_prompt w o).1 ≡ retryable
    → IsRetriable o
unfolding after_prompt judge_failure
after_prompt-retries w o written recorded refreshed end = ground arith

-- The worlds in which the outcome of the prompt is seen and written down.
pub record IsRecorded (w : World) (o : PromptOutcome) : Type 0 where
  pub observed : w.outcome ≡ some o
  pub written : o.persist_error ≡ false
  pub recorded : w.can_record ≡ true
  pub refreshed : w.can_refresh ≡ true

collect-retries :
    (w : World) (o : PromptOutcome)
    → IsRecorded w o
    → prompts (collect w) ≢ 0
    → (collect w).1 ≡ retryable
    → IsRetriable o
collect-retries w o r =
    if-both (λ t. prompts t ≢ 0 → t.1 ≡ retryable → IsRetriable o) w.can_begin
      (if-both (λ t. prompts (emit run_begun t) ≢ 0 → t.1 ≡ retryable → IsRetriable o) w.has_session
        (λ _ end.
          after_prompt-retries w o r.written r.recorded r.refreshed
            (subst (λ u. (run_prompt w u).1 ≡ retryable) r.observed end))
        (λ n _. absurd (n refl)))
      (λ n _. absurd (n refl))

-- A job that sent its prompt, whose outcome was observed, written and recorded, ends so that the queue runs
-- it again only if the prompt failed and its failure may be retried.
pub handle_job-retries :
    (w : World) (o : PromptOutcome)
    → IsRecorded w o
    → prompts (handle_job w) ≢ 0
    → (handle_job w).1 ≡ retryable
    → IsRetriable o
handle_job-retries w o r sent end =
    collect-retries w o r
      (λ z. sent (omega (arith, ap prompts trace, finally-prompts (collect w), z)))
      (sym (ap (λ t. t.1) trace) ∙ end)
  where
    trace : handle_job w ≡ emit slot_taken (emit Effect.lease_taken (finally (collect w)))
    trace =
        let s = handle_job-sends w sent in
        handle_job-IsAdmitted w s.0 ∙ ap (λ l. emit slot_taken (with_lease w l)) s.1.0

-- An acquisition of the lease that rejects ends an admitted job with its slot taken and not released.
handle_job-leaks :
    (w : World)
    → IsAdmitted w
    → w.lease ≡ none
    → (sum_by is_slot_taken (handle_job w).0 ≡ 1) × (sum_by is_slot_released (handle_job w).0 ≡ 0)
handle_job-leaks w a rejected = rw (handle_job-IsAdmitted w a, rejected) (refl, refl)
