-- ===== src/Batch/Row.antt =====
-- The row of a batch in `sampling_batches`, and the updates that src/queue/batches.js,
-- src/queue/batch-control.js and src/worker.js make to it. What the queue and the table `runs` hold is
-- observed: the counts are arguments.
pub mod Life
pub mod Refresh
use one_gl.Prelude.{
  ℕ, ◌+◌, ◌-◌, ◌≤◌, Bool, true, false, ◌&&◌, ◌||◌, not, Option, none, some, if◌then◌else◌, ltb, leb,
  ◌==◌, List, [], ◌∷◌,
}
use one_gl.Batch.Outcome.{
  BatchStatus, pending, queued, running, paused, aborted, completed, partial, failed, Outcome,
  resolve_batch_outcome, resolve_failed_count,
}

pub record BatchRow : Type 0 where
  pub status : BatchStatus
  pub requested_jobs : ℕ
  pub completed_jobs : ℕ
  pub failed_jobs : ℕ
  pub skipped_jobs : ℕ
  pub started_at : Option ℕ
  pub finished_at : Option ℕ
  pub queued_at : Option ℕ
  pub aborted_at : Option ℕ
  pub last_heartbeat_at : Option ℕ

abbrev pub coalesce : Option ℕ → Option ℕ → Option ℕ
coalesce none b = b
coalesce (some a) b = some a

-- The statuses that the control plane holds: a refresh leaves them.
abbrev pub is_held : BatchStatus → Bool
is_held aborted = true
is_held paused = true
is_held _ = false

abbrev pub is_active : BatchStatus → Bool
is_active queued = true
is_active running = true
is_active _ = false

abbrev pub is_stoppable : BatchStatus → Bool
is_stoppable queued = true
is_stoppable running = true
is_stoppable paused = true
is_stoppable _ = false

abbrev pub is_paused : BatchStatus → Bool
is_paused paused = true
is_paused _ = false

abbrev is_running : BatchStatus → Bool
is_running running = true
is_running _ = false

abbrev status_or_running : Option BatchStatus → BatchStatus
status_or_running none = running
status_or_running (some s) = s

-- What `refreshBatchProgress` reads beside the row: the runs that succeeded and failed, the first
-- start of a run, and the failures that only the queue knows.
pub record Counts : Type 0 where
  pub completed : ℕ
  pub db_failed : ℕ
  pub first_run_at : Option ℕ
  pub orphan_failed : ℕ

unfoldable pub failed_count : BatchRow → Counts → ℕ
unfolding resolve_failed_count
failed_count b n =
    resolve_failed_count b.requested_jobs n.completed n.db_failed
      (if leb b.requested_jobs (n.completed + n.db_failed) then 0 else n.orphan_failed)

unfoldable pub batch_outcome : BatchRow → Counts → Outcome
unfolding resolve_batch_outcome failed_count
batch_outcome b n =
    resolve_batch_outcome b.requested_jobs n.completed (failed_count b n) b.skipped_jobs

unfoldable pub refreshed_status : BatchRow → Outcome → BatchStatus
refreshed_status b o = if is_held b.status then b.status else status_or_running o.status

-- The UPDATE of `refreshBatchProgress`: its parameters come from the row as it was read before, and
-- it is applied to the row as it is then.
unfoldable pub write_progress : ℕ → Counts → BatchRow → BatchRow → BatchRow
unfolding batch_outcome refreshed_status
write_progress now n seen b =
    let o = batch_outcome seen n in
    let status' = refreshed_status seen o in
    record b {
      completed_jobs = n.completed;
      failed_jobs = failed_count seen n;
      status = status';
      last_heartbeat_at = some now;
      started_at =
          coalesce b.started_at
            (coalesce n.first_run_at (if is_running status' then some now else none));
      finished_at =
          if not (is_held seen.status) && o.settled
          then coalesce b.finished_at (some now)
          else b.finished_at;
    }

-- With no other update between the read and the write.
unfoldable pub refresh_batch_progress : ℕ → Counts → BatchRow → BatchRow
unfolding write_progress
refresh_batch_progress now n b = write_progress now n b b

-- enqueueBatch, once its assignments are loaded: `false` where it refuses.
unfoldable pub enqueue_batch : ℕ → ℕ → ℕ → BatchRow → BatchRow × Bool
enqueue_batch now live_jobs assignments b =
    if assignments == 0
    then (b, false)
    else if ltb 0 live_jobs && is_active b.status
    then (b, false)
    else (
      record b {
        status = queued;
        queued_at = some now;
        aborted_at = none;
        requested_jobs = assignments;
        skipped_jobs = 0;
        finished_at = none;
      },
      true,
    )

-- stopBatch, with the number of pending jobs that it removes.
unfoldable pub stop_batch : ℕ → ℕ → BatchRow → BatchRow × Bool
stop_batch now removed b =
    if is_stoppable b.status
    then (
      record b {
        status = aborted;
        aborted_at = some now;
        skipped_jobs = b.skipped_jobs + removed;
        last_heartbeat_at = some now;
      },
      true,
    )
    else (b, false)

unfoldable pub pause_batch : ℕ → BatchRow → BatchRow × Bool
pause_batch now b =
    if is_active b.status
    then (record b { status = paused; last_heartbeat_at = some now }, true)
    else (b, false)

-- resumeBatch, with the number of assignments that have no terminal run.
unfoldable pub resume_batch : ℕ → ℕ → BatchRow → BatchRow × Bool
resume_batch now remaining b =
    if is_paused b.status
    then (
      record b {
        status = if remaining == 0 then running else queued;
        queued_at = if remaining == 0 then b.queued_at else some now;
        aborted_at = none;
        last_heartbeat_at = some now;
      },
      true,
    )
    else (b, false)

unfoldable pub mark_skipped : BatchRow → BatchRow
mark_skipped b = record b { skipped_jobs = b.skipped_jobs + 1 }
