-- ===== src/Batch/Outcome/Settled.antt =====
-- What a settled batch's status says (src/queue/batch-status.js).
use one_gl.Prelude.{ℕ, ◌+◌, ◌≤◌, ◌<◌, ◌≡◌, ◌≢◌, ◌↔◌, true, false, none, some, arith, max}
use one_gl.Batch.Outcome.{completed, failed, resolve_batch_outcome, resolve_failed_count}

-- A batch is completed exactly when it asked for something, nothing failed, and at least as many runs
-- succeeded as it asked for; so never without any result.
resolve_batch_outcome-completed_iff :
    (requested done bad skipped : ℕ)
    → ((resolve_batch_outcome requested done bad skipped).status ≡ some completed)
      ↔ ((0 < requested) × (requested ≤ done) × (bad ≡ 0))
unfolding resolve_batch_outcome
resolve_batch_outcome-completed_iff requested done bad skipped =
    (λ h. (ground arith, ground arith, ground arith), λ h. ground arith)

-- A batch is failed exactly when it is settled, nothing succeeded and something failed.
resolve_batch_outcome-failed_iff :
    (requested done bad skipped : ℕ)
    → ((resolve_batch_outcome requested done bad skipped).status ≡ some failed) ↔ (
        ((resolve_batch_outcome requested done bad skipped).settled ≡ true)
        × (done ≡ 0)
        × (0 < bad))
unfolding resolve_batch_outcome
resolve_batch_outcome-failed_iff requested done bad skipped =
    (λ h. (ground arith, ground arith, ground arith), λ h. ground arith)

-- What was produced and what counts as skipped never exceeds the request, unless more was produced
-- than requested; in a settled batch the two make up the request exactly.
resolve_batch_outcome-conserves :
    (requested done bad skipped : ℕ)
    → let o = resolve_batch_outcome requested done bad skipped in
      (o.produced + o.skipped ≤ max requested o.produced)
      × (o.settled ≡ true → o.produced + o.skipped ≡ max requested o.produced)
unfolding resolve_batch_outcome
resolve_batch_outcome-conserves requested done bad skipped = (ground arith, λ h. ground arith)

-- A batch is settled exactly when it has a final status, and if it is not, runs are still to come.
resolve_batch_outcome-settled_iff :
    (requested done bad skipped : ℕ)
    → let o = resolve_batch_outcome requested done bad skipped in
      ((o.settled ≡ true) ↔ (o.status ≢ none))
      × (o.settled ≡ false → 0 < requested → o.produced + skipped < requested)
unfolding resolve_batch_outcome
resolve_batch_outcome-settled_iff requested done bad skipped =
    ((λ h. ground arith, λ h. ground arith), λ h p. ground arith)

-- With the failures that only the queue knows, a batch that asks for something and whose every job
-- has ended is settled.
resolve_failed_count-settles :
    (requested done db_failed orphan_failed skipped : ℕ)
    → 0 < requested
    → requested ≤ done + db_failed + orphan_failed + skipped
    → (resolve_batch_outcome requested done
        (resolve_failed_count requested done db_failed orphan_failed)
        skipped).settled
      ≡ true
unfolding resolve_batch_outcome resolve_failed_count
resolve_failed_count-settles requested done db_failed orphan_failed skipped p h = ground arith
