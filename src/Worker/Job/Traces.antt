-- ===== src/Worker/Job/Traces.antt =====
-- What holds of every effect of a part of `handleJob` (src/worker.js).
use one_gl.Prelude.{Bool, Option, none, some, All, if-both, ◌&&◌}
use one_gl.Batch.Plan.{Action, delay, skip}
use one_gl.Worker.Job.{
  World, Effect, skipped_marked, progress_refreshed, job_delayed, run_begun, prompt_run,
  success_recorded, failure_recorded, JobEnd, retryable, Trace, ends, call, refreshed, skip_job,
  judge_failure, PromptOutcome, after_prompt, run_prompt, collect, unavailable,
}

module _ (P : Effect → Type 0) where
  abbrev pub Each : Trace → Type 0
  Each t = All P t.0

  pub Each-call : (b : Bool) (e : Effect) (t : Trace) → P e → Each t → Each (call b e t)
  Each-call b e t h k = if-both Each b (h, k) tt

  pub Each-refreshed : (w : World) (end : JobEnd) → P progress_refreshed → Each (refreshed w end)
  Each-refreshed w end h = Each-call w.can_refresh progress_refreshed (ends end) h tt

  pub Each-skip_job : (w : World) → P skipped_marked → P progress_refreshed → Each (skip_job w)
  Each-skip_job w s r =
      Each-call w.can_mark_skipped skipped_marked (refreshed w JobEnd.skipped) s
        (Each-refreshed w JobEnd.skipped r)

  pub Each-unavailable :
      (w : World) (a : Action)
      → P skipped_marked
      → P progress_refreshed
      → P job_delayed
      → Each (unavailable w a)
  Each-unavailable w (delay t n) s r d =
      Each-call w.can_delay job_delayed (ends JobEnd.delayed) d tt
  Each-unavailable w (skip b) s r d = Each-skip_job w s r

  pub Each-after_prompt :
      (w : World) (o : PromptOutcome)
      → P progress_refreshed
      → P success_recorded
      → P failure_recorded
      → Each (after_prompt w o)
  unfolding after_prompt
  Each-after_prompt w o r s f =
      if-both Each o.persist_error
        (if-both Each (o.succeeded && w.can_record) (s, Each-refreshed w retryable r)
          (Each-refreshed w retryable r))
        (if-both Each o.succeeded
          (Each-call w.can_record success_recorded (refreshed w JobEnd.done) s
            (Each-refreshed w JobEnd.done r))
          (Each-call w.can_record failure_recorded (refreshed w (judge_failure w o)) f
            (Each-refreshed w (judge_failure w o) r)))

  Each-run_prompt :
      (w : World) (o : Option PromptOutcome)
      → P prompt_run
      → P progress_refreshed
      → P success_recorded
      → P failure_recorded
      → Each (run_prompt w o)
  Each-run_prompt w none p r s f = (p, tt)
  Each-run_prompt w (some o) p r s f = (p, Each-after_prompt w o r s f)

  pub Each-collect :
      (w : World)
      → P run_begun
      → P prompt_run
      → P progress_refreshed
      → P success_recorded
      → P failure_recorded
      → Each (collect w)
  Each-collect w b p r s f =
      Each-call w.can_begin run_begun _ b
        (if-both Each w.has_session (Each-run_prompt w w.outcome p r s f) tt)
