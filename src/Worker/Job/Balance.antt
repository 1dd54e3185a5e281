-- ===== src/Worker/Job/Balance.antt =====
-- Slots and leases of a job (src/worker.js) are given back.
use one_gl.Prelude.{
  All-weaken, ℕ, ◌+◌, ◌≡◌, ◌≢◌, refl, Bool, true, false, Option, none, some, List, [], ◌∷◌, All,
  if-both, sum_by, arith,
}
use one_gl.Prelude.Keyed.{sum_by-append}
use one_gl.Account.Classify.{Verdict}
use one_gl.Batch.Outcome.{BatchStatus}
use one_gl.Batch.Plan.{plan_job}
use one_gl.Worker.Job.{
  World, RunStatus, Effect, slot_taken, slot_released, lease_taken, lease_released, Trace, JobEnd,
  retryable, ends, emit, call, skip_job, refreshed, collect, with_lease, unavailable, is_available,
  with_verdict, with_replay, with_prompt, is_collected, with_existing, is_aborted, with_batch,
  handle_job,
}
use one_gl.Worker.Job.Traces.{
  Each, Each-call, Each-skip_job, Each-refreshed, Each-unavailable, Each-collect,
}

abbrev pub is_slot_taken : Effect → ℕ
is_slot_taken slot_taken = 1
is_slot_taken _ = 0

abbrev pub is_slot_released : Effect → ℕ
is_slot_released slot_released = 1
is_slot_released _ = 0

abbrev pub is_lease_taken : Effect → ℕ
is_lease_taken lease_taken = 1
is_lease_taken _ = 0

abbrev pub is_lease_released : Effect → ℕ
is_lease_released lease_released = 1
is_lease_released _ = 0

-- As many slots are released as taken, and as many leases.
pub record IsBalanced (es : List Effect) : Type 0 where
  pub slots : sum_by is_slot_released es ≡ sum_by is_slot_taken es
  pub leases : sum_by is_lease_released es ≡ sum_by is_lease_taken es

-- An effect on neither.
abbrev IsQuiet : Effect → Type 0
IsQuiet e = (is_slot_taken e + is_slot_released e) + (is_lease_taken e + is_lease_released e) ≡ 0

sum_by-quiet : (f : Effect → ℕ) (es : List Effect) → All (λ e. f e ≡ 0) es → sum_by f es ≡ 0
sum_by-quiet f [] h = refl
sum_by-quiet f (e ∷ es) h = omega (arith, h.0, sum_by-quiet f es h.1)

-- None of quiet effects takes or releases anything.
record Silent (es : List Effect) : Type 0 where
  st : sum_by is_slot_taken es ≡ 0
  sr : sum_by is_slot_released es ≡ 0
  lt : sum_by is_lease_taken es ≡ 0
  lr : sum_by is_lease_released es ≡ 0

All-Silent : (es : List Effect) → All IsQuiet es → Silent es
All-Silent es h = record {
  st = sum_by-quiet is_slot_taken es (All-weaken es (λ e q. omega (arith, q)) h);
  sr = sum_by-quiet is_slot_released es (All-weaken es (λ e q. omega (arith, q)) h);
  lt = sum_by-quiet is_lease_taken es (All-weaken es (λ e q. omega (arith, q)) h);
  lr = sum_by-quiet is_lease_released es (All-weaken es (λ e q. omega (arith, q)) h);
}

abbrev Balanced : Trace → Type 0
Balanced t = IsBalanced t.0

quiet-Balanced : (t : Trace) → Each IsQuiet t → Balanced t
quiet-Balanced t h =
    let s = All-Silent t.0 h in
    record { slots = omega (arith, s.st, s.sr); leases = omega (arith, s.lt, s.lr) }

refreshed-Balanced : (w : World) (end : JobEnd) → Balanced (refreshed w end)
refreshed-Balanced w end = quiet-Balanced (refreshed w end) (Each-refreshed IsQuiet w end refl)

skip_job-Balanced : (w : World) → Balanced (skip_job w)
skip_job-Balanced w = quiet-Balanced (skip_job w) (Each-skip_job IsQuiet w refl refl)

with_lease-Balanced :
    (w : World) (acquired : Bool) → Balanced (emit slot_taken (with_lease w (some acquired)))
with_lease-Balanced w false =
    let t = call w.can_delay Effect.job_delayed (ends JobEnd.delayed) in
    let s =
      All-Silent t.0
        (Each-call IsQuiet w.can_delay Effect.job_delayed (ends JobEnd.delayed) refl tt) in
    record { slots = omega (arith, s.st, s.sr); leases = omega (arith, s.lt, s.lr) }
with_lease-Balanced w true =
    let es = (collect w).0 in
    let s = All-Silent es (Each-collect IsQuiet w refl refl refl refl refl) in
    let rest = slot_released ∷ lease_released ∷ [] in
    record {
      slots = omega (
        arith,
        s.st,
        s.sr,
        sum_by-append is_slot_taken es rest,
        sum_by-append is_slot_released es rest,
      );
      leases = omega (
        arith,
        s.lt,
        s.lr,
        sum_by-append is_lease_taken es rest,
        sum_by-append is_lease_released es rest,
      );
    }

-- The acquisition of the lease does not reject.
abbrev pub IsAnswered : World → Type 0
IsAnswered w = w.lease ≢ none

leased-Balanced :
    (w : World) (o : Option Bool) → o ≢ none → Balanced (emit slot_taken (with_lease w o))
leased-Balanced w none h = absurd (h refl)
leased-Balanced w (some b) h = with_lease-Balanced w b

nothing-Balanced : (end : JobEnd) → Balanced (ends end)
nothing-Balanced end = quiet-Balanced (ends end) tt

with_verdict-Balanced :
    (w : World) (v : Option Verdict) → IsAnswered w → Balanced (with_verdict w v)
unfolding with_verdict
with_verdict-Balanced w none h = nothing-Balanced retryable
with_verdict-Balanced w (some v) h =
    let a = plan_job v w.cooldown_waits w.now in
    if-both Balanced (is_available v.kind) (leased-Balanced w w.lease h)
      (quiet-Balanced (unavailable w a) (Each-unavailable IsQuiet w a refl refl refl))

with_replay-Balanced :
    (w : World) (r : Option (Option Bool)) → IsAnswered w → Balanced (with_replay w r)
with_replay-Balanced w none h = nothing-Balanced retryable
with_replay-Balanced w (some none) h = with_verdict-Balanced w w.verdict h
with_replay-Balanced w (some (some b)) h = refreshed-Balanced w _

with_prompt-Balanced : (w : World) (p : Option Bool) → IsAnswered w → Balanced (with_prompt w p)
with_prompt-Balanced w none h = nothing-Balanced retryable
with_prompt-Balanced w (some false) h = nothing-Balanced JobEnd.unrecoverable
with_prompt-Balanced w (some true) h = with_replay-Balanced w w.replay h

with_existing-Balanced :
    (w : World) (r : Option (Option RunStatus)) → IsAnswered w → Balanced (with_existing w r)
with_existing-Balanced w none h = nothing-Balanced retryable
with_existing-Balanced w (some r) h =
    if-both Balanced (is_collected r) (refreshed-Balanced w JobEnd.skipped)
      (with_prompt-Balanced w w.prompt_found h)

with_batch-Balanced :
    (w : World) (b : Option (Option BatchStatus)) → IsAnswered w → Balanced (with_batch w b)
with_batch-Balanced w none h = nothing-Balanced retryable
with_batch-Balanced w (some none) h = nothing-Balanced JobEnd.unrecoverable
with_batch-Balanced w (some (some s)) h =
    if-both Balanced (is_aborted s) (skip_job-Balanced w)
      (with_existing-Balanced w w.existing_run h)

-- On every path of a job, exceptions of its other calls included, each slot and each lease that it took is
-- given back, if the acquisition of the lease itself does not reject.
pub handle_job-IsBalanced : (w : World) → IsAnswered w → IsBalanced (handle_job w).0
unfolding handle_job
handle_job-IsBalanced w h =
    if-both Balanced w.adapter_known (with_batch-Balanced w w.batch_row h)
      (nothing-Balanced JobEnd.unrecoverable)
