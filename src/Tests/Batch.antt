-- ===== src/Tests/Batch.antt =====
-- Batches and their jobs.
use one_gl.Prelude.{ℕ, ◌≡◌, ◌≢◌, ◌⊎◌, inr, refl, true, none, some, List, [], ◌∷◌, arith}
use one_gl.Account.State.{cooling}
use one_gl.Account.Classify.{Verdict, temporary, wait}
use one_gl.Batch.Outcome.{running, aborted, completed, partial, failed}
use one_gl.Batch.Plan.{plan_job, skip}
use one_gl.Batch.Plan.Waits.{waits_after, paced_waits_use_up}
use one_gl.Batch.Row.{
  BatchRow, Counts, batch_outcome, refresh_batch_progress, write_progress, stop_batch,
  enqueue_batch, mark_skipped,
}
use one_gl.Batch.Row.Refresh.{refresh_batch_progress-finishes, write_progress-loses_stop}
use one_gl.Batch.Row.Life.{
  Event, run, created, created_life, enqueues, stops, reads, writes, skips, IsTruthful,
  run-created-IsTruthful,
}

abbrev paced_wait : Verdict
paced_wait = record { kind = temporary; reason = some cooling; retry_at = some 500; paced = true }

paced_waits_use_up_example :
    (n : ℕ) × (waits_after 0 ((paced_wait, 10) ∷ (paced_wait, 600) ∷ (paced_wait, 700) ∷ [])
      ≡ some n)
    × (plan_job (wait cooling 900) n 800 ≡ skip true)
paced_waits_use_up_example =
    paced_waits_use_up ((paced_wait, 10) ∷ (paced_wait, 600) ∷ (paced_wait, 700) ∷ [])
      (wait cooling 900) 900 800
      ((refl, (λ e. cc), refl), ((refl, (λ e. cc), refl), ((refl, (λ e. cc), refl), tt)))
      (omega arith) (omega arith) refl refl refl

abbrev batch : BatchRow
batch = record created {
  status = running;
  requested_jobs = 4;
  skipped_jobs = 1;
  queued_at = some 5;
}

abbrev some_done : Counts
some_done = record { completed = 1; db_failed = 1; first_run_at = some 7; orphan_failed = 0 }

abbrev all_done : Counts
all_done = record { completed = 1; db_failed = 1; first_run_at = some 7; orphan_failed = 1 }

refresh_batch_progress-finishes_example :
    let b' = refresh_batch_progress 10 all_done batch in
    ((b'.status ≡ completed) ⊎ ((b'.status ≡ partial) ⊎ (b'.status ≡ failed)))
    × (b'.finished_at ≢ none)
refresh_batch_progress-finishes_example =
    refresh_batch_progress-finishes 10 all_done batch refl (omega arith) (omega arith)

write_progress-loses_stop_example :
    let b' = write_progress 10 some_done batch (stop_batch 9 0 batch).0 in
    ((stop_batch 9 0 batch).0.status ≡ aborted) × (b'.status ≡ running) × (b'.aborted_at ≡ some 9)
unfolding batch_outcome
write_progress-loses_stop_example = write_progress-loses_stop 10 9 0 some_done batch (inr refl) refl

abbrev batch_history : List Event
batch_history =
    enqueues 5 0 4
    ∷ skips
    ∷ reads 1
    ∷ reads 2
    ∷ writes 2 10 all_done
    ∷ reads 1
    ∷ writes 1 11 all_done
    ∷ stops 20 0
    ∷ []

run-created-IsTruthful_example : IsTruthful (run created_life batch_history).row
unfolding run write_progress enqueue_batch mark_skipped stop_batch
run-created-IsTruthful_example =
    run-created-IsTruthful batch_history
      (tt, (tt, (tt, (tt, ((refl, refl), (tt, ((refl, refl), (tt, tt))))))))
