-- ===== src/Batch/Outcome.antt =====
-- src/queue/batch-status.js. The counters are natural numbers, on which `Math.max(0, Number(n) || 0)`
-- changes nothing.
pub mod Settled
use one_gl.Prelude.{
  ℕ, ◌+◌, ◌-◌, ◌≤◌, Bool, true, false, ◌&&◌, ◌||◌, Option, none, some, if◌then◌else◌, ltb, leb,
  ◌==◌, min,
}

-- The texts of the column `status` of a batch.
pub data BatchStatus : Type 0 where
  pending queued running paused aborted completed partial failed : BatchStatus

pub record Outcome : Type 0 where
  pub settled : Bool
  pub status : Option BatchStatus
  pub skipped : ℕ
  pub produced : ℕ
  pub outstanding : ℕ

-- The status of a batch in which every assignment has a result.
unfoldable pub final_status : ℕ → ℕ → ℕ → BatchStatus
final_status done bad skipped =
    if done == 0
    then (if ltb 0 bad then failed else partial)
    else if ltb 0 bad || ltb 0 skipped
    then partial
    else completed

unfoldable pub resolve_batch_outcome : ℕ → ℕ → ℕ → ℕ → Outcome
unfolding final_status
resolve_batch_outcome requested done bad raw_skipped =
    let produced = done + bad in
    let outstanding = requested - produced in
    let settled = ltb 0 requested && leb requested (produced + raw_skipped) in
    let skipped = if settled then outstanding else min raw_skipped outstanding in
    record {
      settled = settled;
      status = if settled then some (final_status done bad skipped) else none;
      skipped = skipped;
      produced = produced;
      outstanding = outstanding;
    }

unfoldable pub resolve_failed_count : ℕ → ℕ → ℕ → ℕ → ℕ
resolve_failed_count requested done db_failed orphan_failed =
    if ltb (done + db_failed) requested then db_failed + orphan_failed else db_failed
