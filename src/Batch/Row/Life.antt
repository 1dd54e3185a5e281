-- ===== src/Batch/Row/Life.antt =====
-- The life of a batch (src/queue): every update as a step, a refresh as its read and its write, and what holds
-- after any history of steps.
use one_gl.Prelude.{
  ℕ, Option, some, ◌==◌, if◌then◌else◌, ◌≤◌, ◌<◌, ◌≡◌, ◌≢◌, none, List, [], ◌∷◌, arith,
}
use one_gl.Batch.Outcome.{pending, aborted, completed, partial, failed}
use one_gl.Batch.Row.{
  BatchRow, Counts, write_progress, enqueue_batch, stop_batch, pause_batch, resume_batch,
  mark_skipped,
}

pub data Event : Type 0 where
  enqueues : ℕ → ℕ → ℕ → Event
  stops resumes : ℕ → ℕ → Event
  pauses : ℕ → Event
  skips : Event
  -- `refreshBatchProgress` reads the row, and later writes by what it read; other steps may come between.
  reads : ℕ → Event
  writes : ℕ → ℕ → Counts → Event

-- The row, and what each refresh under way has read of it, by its number; the last read of a number holds.
pub record BatchLife : Type 0 where
  pub row : BatchRow
  pub seen : List (ℕ × BatchRow)

unfoldable pub seen_by : ℕ → List (ℕ × BatchRow) → Option BatchRow
seen_by refresh [] = none
seen_by refresh ((r, b) ∷ rest) = if r == refresh then some b else seen_by refresh rest

abbrev pub write_seen : ℕ → Counts → Option BatchRow → BatchRow → BatchRow
write_seen now n none b = b
write_seen now n (some seen) b = write_progress now n seen b

unfoldable pub update_row : BatchRow → Event → BatchRow
update_row b (enqueues now live n) = (enqueue_batch now live n b).0
update_row b (stops now removed) = (stop_batch now removed b).0
update_row b (resumes now remaining) = (resume_batch now remaining b).0
update_row b (pauses now) = (pause_batch now b).0
update_row b skips = mark_skipped b
update_row b (reads refresh) = b
update_row b (writes refresh now n) = b

unfoldable pub step : BatchLife → Event → BatchLife
unfolding update_row seen_by
step l (reads refresh) = record l { seen = (refresh, l.row) ∷ l.seen }
step l (writes refresh now n) = record l { row = write_seen now n (seen_by refresh l.seen) l.row }
step l (enqueues now live n) = record l { row = update_row l.row (enqueues now live n) }
step l (stops now removed) = record l { row = update_row l.row (stops now removed) }
step l (resumes now remaining) = record l { row = update_row l.row (resumes now remaining) }
step l (pauses now) = record l { row = update_row l.row (pauses now) }
step l skips = record l { row = update_row l.row skips }

unfoldable pub run : BatchLife → List Event → BatchLife
unfolding step
run b [] = b
run b (e ∷ es) = run (step b e) es

-- The statuses tell the truth about the counters of the row.
pub record IsTruthful (b : BatchRow) : Type 0 where
  when_completed :
      b.status ≡ completed
      → (0 < b.requested_jobs) × (b.requested_jobs ≤ b.completed_jobs) × (b.failed_jobs ≡ 0)
  when_failed : b.status ≡ failed → (b.completed_jobs ≡ 0) × (0 < b.failed_jobs)
  when_partial : b.status ≡ partial → 0 < b.requested_jobs
  when_aborted : b.status ≡ aborted → b.aborted_at ≢ none

-- A batch as createSamplingBatch inserts it.
abbrev pub created : BatchRow
created = record {
  status = pending;
  requested_jobs = 0;
  completed_jobs = 0;
  failed_jobs = 0;
  skipped_jobs = 0;
  started_at = none;
  finished_at = none;
  queued_at = none;
  aborted_at = none;
  last_heartbeat_at = none;
}

-- Where the row still has the status and the number of jobs that the refresh read.
abbrev pub IsUndisturbed : Option BatchRow → BatchRow → Type 0
IsUndisturbed none b = Unit
IsUndisturbed (some seen) b = (b.status ≡ seen.status) × (b.requested_jobs ≡ seen.requested_jobs)

abbrev pub IsCalm : Event → BatchLife → Type 0
IsCalm (writes refresh now n) l = IsUndisturbed (seen_by refresh l.seen) l.row
IsCalm _ l = Unit

abbrev pub AllCalm : List Event → BatchLife → Type 0
AllCalm [] l = Unit
AllCalm (e ∷ es) l = IsCalm e l × AllCalm es (step l e)

write_seen-IsTruthful :
    (now : ℕ) (n : Counts) (o : Option BatchRow) (b : BatchRow)
    → IsUndisturbed o b
    → IsTruthful b
    → IsTruthful (write_seen now n o b)
unfolding write_progress
write_seen-IsTruthful now n none b u v = v
write_seen-IsTruthful now n (some seen) b u v =
    let (same_status, same_jobs) = u in
    record {
      when_completed = λ e. (ground arith, ground arith, ground arith);
      when_failed = λ e. (ground arith, ground arith);
      when_partial = λ e. ground arith;
      when_aborted = λ e. ground (arith, v.when_aborted);
    }

update_row-IsTruthful : (b : BatchRow) (e : Event) → IsTruthful b → IsTruthful (update_row b e)
unfolding update_row enqueue_batch stop_batch pause_batch resume_batch mark_skipped
update_row-IsTruthful b (reads refresh) v = v
update_row-IsTruthful b (writes refresh now n) v = v
update_row-IsTruthful b (enqueues now live n) v =
    ground (arith, v.when_completed, v.when_failed, v.when_partial, v.when_aborted)
update_row-IsTruthful b (stops now removed) v =
    ground (arith, v.when_completed, v.when_failed, v.when_partial, v.when_aborted)
update_row-IsTruthful b (resumes now remaining) v =
    ground (arith, v.when_completed, v.when_failed, v.when_partial, v.when_aborted)
update_row-IsTruthful b (pauses now) v =
    ground (arith, v.when_completed, v.when_failed, v.when_partial, v.when_aborted)
update_row-IsTruthful b skips v = record {
  when_completed = v.when_completed;
  when_failed = v.when_failed;
  when_partial = v.when_partial;
  when_aborted = v.when_aborted;
}

step-IsTruthful :
    (l : BatchLife) (e : Event) → IsCalm e l → IsTruthful l.row → IsTruthful (step l e).row
unfolding step
step-IsTruthful l (reads refresh) c v = v
step-IsTruthful l (writes refresh now n) c v =
    write_seen-IsTruthful now n (seen_by refresh l.seen) l.row c v
step-IsTruthful l (enqueues now live n) c v = update_row-IsTruthful l.row (enqueues now live n) v
step-IsTruthful l (stops now removed) c v = update_row-IsTruthful l.row (stops now removed) v
step-IsTruthful l (resumes now remaining) c v =
    update_row-IsTruthful l.row (resumes now remaining) v
step-IsTruthful l (pauses now) c v = update_row-IsTruthful l.row (pauses now) v
step-IsTruthful l skips c v = update_row-IsTruthful l.row skips v

run-IsTruthful :
    (l : BatchLife) (es : List Event) → AllCalm es l → IsTruthful l.row → IsTruthful (run l es).row
unfolding run
run-IsTruthful l [] c v = v
run-IsTruthful l (e ∷ es) c v = run-IsTruthful (step l e) es c.1 (step-IsTruthful l e c.0 v)

abbrev pub created_life : BatchLife
created_life = record { row = created; seen = [] }

-- After any history of enqueueing, stopping, pausing, resuming, skipping and refreshing, refreshes at the same
-- time included, in which each refresh writes to a row that still has the status and the number of jobs that it
-- read: a new batch that is completed has every requested run and no failure, one that is failed has a failure
-- and no success, one that is partial asked for something, and one that is aborted has the time of its stop.
pub run-created-IsTruthful :
    (es : List Event) → AllCalm es created_life → IsTruthful (run created_life es).row
run-created-IsTruthful es c = run-IsTruthful created_life es c (record {
  when_completed = λ e. cc;
  when_failed = λ e. cc;
  when_partial = λ e. cc;
  when_aborted = λ e. cc;
})
