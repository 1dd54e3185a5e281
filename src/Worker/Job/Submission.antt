-- ===== src/Worker/Job/Submission.antt =====
-- When a job of src/worker.js sends its prompt, and what lets it be sent again.
use one_gl.Prelude.{
  ℕ, ◌≡◌, ◌≢◌, ◌⊎◌, inl, inr, refl, Bool, true, false, Option, none, some, List, [], ◌∷◌, ◌++◌,
  if◌then◌else◌, All, if-both, sum_by, arith, if-cases,
}
use one_gl.Account.Classify.{Verdict}
use one_gl.Batch.Outcome.{BatchStatus}
use one_gl.Batch.Plan.{plan_job}
use one_gl.Worker.Job.{
  World, RunStatus, Effect, slot_taken, slot_released, lease_released, prompt_run, Trace, JobEnd,
  unrecoverable, ends, emit, PromptOutcome, skip_job, refreshed, after_prompt, run_prompt, collect,
  finally, with_lease, unavailable, is_available, with_verdict, with_replay, with_prompt,
  is_collected, with_existing, is_aborted, with_batch, handle_job,
}
use one_gl.Worker.Job.Traces.{
  Each, Each-call, Each-skip_job, Each-refreshed, Each-unavailable, Each-after_prompt,
}

abbrev pub is_prompt_run : Effect → ℕ
is_prompt_run prompt_run = 1
is_prompt_run _ = 0

abbrev pub prompts : Trace → ℕ
prompts t = sum_by is_prompt_run t.0

-- What a job has passed when it comes to its slot: its batch is not aborted, no run of it succeeded, it has a
-- prompt, no stored answer waits to be written, and the account is available.
pub record IsAdmitted (w : World) : Type 0 where
  pub known : w.adapter_known ≡ true
  pub status : BatchStatus
  pub batch : w.batch_row ≡ some (some status)
  pub alive : is_aborted status ≡ false
  pub run : Option RunStatus
  pub existing : w.existing_run ≡ some run
  pub uncollected : is_collected run ≡ false
  pub prompt : w.prompt_found ≡ some true
  pub no_replay : w.replay ≡ some none
  pub verdict : Verdict
  pub judged : w.verdict ≡ some verdict
  pub available : is_available verdict.kind ≡ true

-- An admitted job is one that takes its slot and asks for its lease.
pub handle_job-IsAdmitted :
    (w : World) → IsAdmitted w → handle_job w ≡ emit slot_taken (with_lease w w.lease)
unfolding handle_job with_verdict
handle_job-IsAdmitted w a =
    rw
      (
        a.known, a.batch, a.alive, a.existing, a.uncollected, a.prompt, a.no_replay, a.judged,
        a.available,
      )
      refl

sum_by-none : (es : List Effect) → All (λ e. is_prompt_run e ≡ 0) es → sum_by is_prompt_run es ≡ 0
sum_by-none [] h = refl
sum_by-none (e ∷ es) h = omega (arith, h.0, sum_by-none es h.1)

silent : (t : Trace) → Each (λ e. is_prompt_run e ≡ 0) t → prompts t ≡ 0
silent t h = sum_by-none t.0 h

run_prompt-once : (w : World) (o : Option PromptOutcome) → prompts (run_prompt w o) ≡ 1
run_prompt-once w none = refl
run_prompt-once w (some o) = omega (
  arith,
  silent (after_prompt w o) (Each-after_prompt (λ e. is_prompt_run e ≡ 0) w o refl refl refl),
)

pub finally-prompts : (t : Trace) → prompts (finally t) ≡ prompts t
finally-prompts t = append t.0
  where
    append :
        (es : List Effect)
        → sum_by is_prompt_run (es ++ slot_released ∷ lease_released ∷ []) ≡ sum_by is_prompt_run es
    append [] = refl
    append (e ∷ es) = omega (arith, append es)

-- No prompt was sent, or one, by an admitted job with a lease.
abbrev Sends : World → Trace → Type 0
Sends w t = (prompts t ≡ 0) ⊎ (IsAdmitted w × ((w.lease ≡ some true) × (prompts t ≡ 1)))

collect-once : (w : World) → (prompts (collect w) ≡ 0) ⊎ (prompts (collect w) ≡ 1)
collect-once w =
    if-both (λ t. (prompts t ≡ 0) ⊎ (prompts t ≡ 1)) w.can_begin
      (if-both
        (λ t. (prompts (emit Effect.run_begun t) ≡ 0) ⊎ (prompts (emit Effect.run_begun t) ≡ 1))
        w.has_session (inr (omega (arith, run_prompt-once w w.outcome))) (inl refl))
      (inl refl)

with_lease-Sends :
    (w : World) (o : Option Bool)
    → IsAdmitted w
    → w.lease ≡ o
    → Sends w (emit slot_taken (with_lease w o))
with_lease-Sends w none a e = inl refl
with_lease-Sends w (some false) a e = inl (
    silent (emit slot_taken (with_lease w (some false))) (
      refl,
      (
        refl,
        Each-call (λ e. is_prompt_run e ≡ 0) w.can_delay Effect.job_delayed (ends JobEnd.delayed)
            refl tt,
      ),
    ))
with_lease-Sends w (some true) a e = elim (collect-once w) [
  | inl z ↦ inl (omega (arith, z, finally-prompts (collect w)))
  | inr o ↦ inr (a, (e, omega (arith, o, finally-prompts (collect w))))
]

module _ (w : World) (known : w.adapter_known ≡ true) where
  with_verdict-Sends :
      (v : Option Verdict)
      → w.verdict ≡ v
      → ((u : Verdict) → w.verdict ≡ some u → is_available u.kind ≡ true → IsAdmitted w)
      → Sends w (with_verdict w v)
  unfolding with_verdict
  with_verdict-Sends none e admit = inl refl
  with_verdict-Sends (some v) e admit =
      let a = plan_job v w.cooldown_waits w.now in
      if-cases (Sends w) (is_available v.kind) (λ h. with_lease-Sends w w.lease (admit v e h) refl)
        (λ _. inl (
          silent (unavailable w a)
            (Each-unavailable (λ e. is_prompt_run e ≡ 0) w a refl refl refl)))

  with_existing-Sends :
      (status : BatchStatus)
      → w.batch_row ≡ some (some status)
      → is_aborted status ≡ false
      → (r : Option (Option RunStatus)) → w.existing_run ≡ r
      → Sends w (with_existing w r)
  with_existing-Sends status batch alive none existing = inl refl
  with_existing-Sends status batch alive (some r) existing =
      if-cases (Sends w) (is_collected r)
        (λ _. inl (
          silent (refreshed w JobEnd.skipped)
            (Each-refreshed (λ e. is_prompt_run e ≡ 0) w JobEnd.skipped refl)))
        (λ uncollected. prompted uncollected w.prompt_found refl)
    where
      replayed :
          is_collected r ≡ false
          → w.prompt_found ≡ some true
          → (p : Option (Option Bool)) → w.replay ≡ p
          → Sends w (with_replay w p)
      replayed uncollected prompt none e = inl refl
      replayed uncollected prompt (some (some b)) e =
          inl (silent (refreshed w _) (Each-refreshed (λ e. is_prompt_run e ≡ 0) w _ refl))
      replayed uncollected prompt (some none) e =
          with_verdict-Sends w.verdict refl (λ u judged available. record {
            known = known;
            status = status;
            batch = batch;
            alive = alive;
            run = r;
            existing = existing;
            uncollected = uncollected;
            prompt = prompt;
            no_replay = e;
            verdict = u;
            judged = judged;
            available = available;
          })

      prompted :
          is_collected r ≡ false
          → (p : Option Bool) → w.prompt_found ≡ p
          → Sends w (with_prompt w p)
      prompted uncollected none e = inl refl
      prompted uncollected (some false) e = inl refl
      prompted uncollected (some true) e = replayed uncollected e w.replay refl

  with_batch-Sends : (b : Option (Option BatchStatus)) → w.batch_row ≡ b → Sends w (with_batch w b)
  with_batch-Sends none e = inl refl
  with_batch-Sends (some none) e = inl refl
  with_batch-Sends (some (some s)) e =
      if-cases (Sends w) (is_aborted s)
        (λ _. inl (silent (skip_job w) (Each-skip_job (λ e. is_prompt_run e ≡ 0) w refl refl)))
        (λ alive. with_existing-Sends s e alive w.existing_run refl)

-- A job that sends a prompt sends it once, and only if its batch is not aborted, no run of it succeeded
-- before, it has a prompt, no stored answer waits to be written, the account is available, and the lease
-- was acquired.
pub handle_job-sends :
    (w : World)
    → prompts (handle_job w) ≢ 0
    → IsAdmitted w × ((w.lease ≡ some true) × (prompts (handle_job w) ≡ 1))
unfolding handle_job
handle_job-sends w sent = elim (cases) [ inl z ↦ absurd (sent z) | inr a ↦ a ]
  where
    cases : Sends w (if w.adapter_known then with_batch w w.batch_row else ends unrecoverable)
    cases =
        if-cases (Sends w) w.adapter_known (λ known. with_batch-Sends w known w.batch_row refl)
          (λ _. inl refl)
