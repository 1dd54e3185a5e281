-- ===== src/Batch/Row/Refresh.antt =====
-- Refreshing a batch from its counts (src/queue/batches.js).
use one_gl.Prelude.{ℕ, ◌+◌, ◌≤◌, ◌<◌, ◌≡◌, ◌≢◌, ◌⊎◌, true, false, none, some, arith}
use one_gl.Batch.Outcome.{queued, running, aborted, completed, partial, failed}
use one_gl.Batch.Row.{
  BatchRow, Counts, is_held, batch_outcome, refresh_batch_progress, write_progress, stop_batch,
}

-- A refresh that is repeated with the same counts changes nothing but the heartbeat.
refresh_batch_progress-repeats :
    (now later : ℕ) (n : Counts) (b : BatchRow)
    → refresh_batch_progress later n (refresh_batch_progress now n b)
      ≡ record (refresh_batch_progress now n b) { last_heartbeat_at = some later }
unfolding refresh_batch_progress
refresh_batch_progress-repeats now later n b = ground arith

-- A batch that asks for something and is neither stopped nor paused, and whose every job has succeeded, failed (in the table
-- or only in the queue) or been skipped, gets a final status and a finishing time by one refresh.
pub refresh_batch_progress-finishes :
    (now : ℕ) (n : Counts) (b : BatchRow)
    → is_held b.status ≡ false
    → 0 < b.requested_jobs
    → b.requested_jobs ≤ n.completed + n.db_failed + n.orphan_failed + b.skipped_jobs
    → let b' = refresh_batch_progress now n b in
      ((b'.status ≡ completed) ⊎ ((b'.status ≡ partial) ⊎ (b'.status ≡ failed)))
      × (b'.finished_at ≢ none)
unfolding refresh_batch_progress
refresh_batch_progress-finishes now n b free p h = (ground arith, ground arith)

-- A batch with runs still to come is running after a refresh, unless it is stopped or paused, and
-- those two the refresh leaves alone together with the finishing time.
refresh_batch_progress-unsettled :
    (now : ℕ) (n : Counts) (b : BatchRow)
    → let b' = refresh_batch_progress now n b in
      (is_held b.status ≡ false
        → n.completed + n.db_failed + n.orphan_failed + b.skipped_jobs < b.requested_jobs
        → (b'.status ≡ running) × (b'.finished_at ≡ b.finished_at) × (b'.started_at ≢ none))
      × (is_held b.status ≡ true → (b'.status ≡ b.status) × (b'.finished_at ≡ b.finished_at))
unfolding refresh_batch_progress
refresh_batch_progress-unsettled now n b =
    (λ free h. (ground arith, ground arith, ground arith), λ held. (ground arith, ground arith))

-- The read and the write are two statements. Where a queued or running batch that is not settled is
-- stopped between them, the write undoes the stop: the batch is running again, with the time of the stop still in
-- its row.
pub write_progress-loses_stop :
    (now stopped removed : ℕ) (n : Counts) (b : BatchRow)
    → (b.status ≡ queued) ⊎ (b.status ≡ running)
    → (batch_outcome b n).settled ≡ false
    → let b' = write_progress now n b (stop_batch stopped removed b).0 in
      ((stop_batch stopped removed b).0.status ≡ aborted)
      × (b'.status ≡ running)
      × (b'.aborted_at ≡ some stopped)
unfolding write_progress stop_batch
write_progress-loses_stop now stopped removed n b active open_ =
    (ground arith, ground arith, ground arith)
