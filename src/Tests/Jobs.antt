-- ===== src/Tests/Jobs.antt =====
-- Jobs of the worker.
use one_gl.Prelude.{◌≡◌, ◌≢◌, refl, subst, Bool, true, false, Option, none, some, arith}
use one_gl.Account.State.{answer_not_found}
use one_gl.Account.Classify.{Verdict, available}
use one_gl.Account.Retry.{can_retry_outcome}
use one_gl.Batch.Outcome.{running}
use one_gl.Worker.Job.{World, run_failed, PromptOutcome, handle_job}
use one_gl.Worker.Job.Balance.{IsBalanced, handle_job-IsBalanced}
use one_gl.Worker.Job.Submission.{prompts, IsAdmitted, handle_job-sends}
use one_gl.Worker.Job.Retries.{IsRetriable, handle_job-retries}

abbrev free : Verdict
free = record { kind = available; reason = none; retry_at = none; paced = false }

abbrev no_answer : PromptOutcome
no_answer = record {
  succeeded = false;
  persist_error = false;
  code = answer_not_found;
  prompt_submitted = some true;
}

abbrev world_of : Option Bool → Bool → PromptOutcome → World
world_of lease can_record o = record {
  adapter_known = true;
  batch_row = some (some running);
  existing_run = some (some run_failed);
  prompt_found = some true;
  replay = some none;
  verdict = some free;
  cooldown_waits = 0;
  now = 100;
  can_delay = true;
  can_mark_skipped = true;
  can_refresh = true;
  lease = lease;
  can_begin = true;
  has_session = true;
  outcome = some o;
  can_record = can_record;
  blocked = false;
}

abbrev world : World
world = world_of (some true) true no_answer

abbrev admitted_at :
    (lease : Option Bool) (can_record : Bool) (o : PromptOutcome)
    → IsAdmitted (world_of lease can_record o)
admitted_at lease can_record o = record {
  known = refl;
  status = running;
  batch = refl;
  alive = refl;
  run = some run_failed;
  existing = refl;
  uncollected = refl;
  prompt = refl;
  no_replay = refl;
  verdict = free;
  judged = refl;
  available = refl;
}

leased : world.lease ≢ none
leased e = subst (λ o. elim o as (λ x. Type 0) [ none ↦ ⊥ | some b ↦ Unit ]) e tt

sent : prompts (handle_job world) ≢ 0
unfolding handle_job
sent e = absurd (omega (arith, e))

handle_job-IsBalanced_example : IsBalanced (handle_job world).0
handle_job-IsBalanced_example = handle_job-IsBalanced world leased

handle_job-sends_example :
    IsAdmitted world × ((world.lease ≡ some true) × (prompts (handle_job world) ≡ 1))
handle_job-sends_example = handle_job-sends world sent

handle_job-retries_example : IsRetriable no_answer
unfolding handle_job can_retry_outcome
handle_job-retries_example =
    handle_job-retries world no_answer
      (record { observed = refl; written = refl; recorded = refl; refreshed = refl }) sent refl
