-- ===== src/Batch/Plan/Waits.antt =====
-- How long a job waits for its account (src/queue/job-plan.js, src/worker.js).
use one_gl.Prelude.{
  ap, ◌∙◌, ℕ, ◌+◌, ◌≤◌, ◌<◌, ◌≡◌, ◌≢◌, ◌⊎◌, inl, inr, refl, Bool, true, false, Option, none, some,
  List, [], ◌∷◌, length, arith, Bool-cases, max, if◌then◌else◌, ltb, ltb→lt,
}
use one_gl.Providers.{Registry, Pacing}
use one_gl.Account.State.{AccountState, SafetyConfig, Reason}
use one_gl.Account.Classify.{
  Verdict, Availability, available, temporary, permanent, Burst, classify_account_state,
}
use one_gl.Account.Classify.Shape.{Shape, classify_account_state-IsSound}
use one_gl.Batch.Plan.{
  Action, delay, skip, plan_for, plan_unavailable_job, plan_job, max_paced_waits,
  max_cooldown_waits,
}

-- What a delay comes from: a wait within the limit, put off to its end or by a second at least.
abbrev pub DelayFrom : Availability → Option ℕ → ℕ → ℕ → ℕ → Action → Type 0
DelayFrom k r waits limit now (skip x) = x ≡ true → limit ≤ waits
DelayFrom k r waits limit now (delay t n) =
    (k ≡ temporary)
    × (waits < limit)
    × (n ≡ waits + 1)
    × (now + 1000 ≤ t)
    × ((u : ℕ) → r ≡ some u → u ≤ t)

-- A job is delayed only for a temporary verdict and below the limit of waits; then it has one wait
-- more, and comes back no earlier than the verdict's time and no earlier than in a second. Where it
-- is skipped as exhausted, the limit is reached.
plan_unavailable_job-DelayFrom :
    (v : Verdict) (waits limit now : ℕ)
    → DelayFrom v.kind v.retry_at waits limit now (plan_unavailable_job v waits limit now)
unfolding plan_unavailable_job
plan_unavailable_job-DelayFrom v waits limit now = from v.kind v.retry_at
  where
    from :
        (k : Availability) (r : Option ℕ)
        → DelayFrom k r waits limit now (plan_for k r waits limit now)
    from temporary (some t) = elim (Bool-cases (ltb waits limit)) [
      | inl e ↦ rw e (refl, ltb→lt waits limit e, refl, omega arith, λ u f. ground arith)
      | inr e ↦ rw e (λ _. ground arith)
    ]
    from temporary none = λ e. cc
    from available r = λ e. cc
    from permanent r = λ e. cc

-- The verdict on an account decides the job: a wait delays it by a second at least while it has had fewer than
-- three waits, whatever the gate that asked for it, and a refusal skips it at once.
pub classify_account_state-plan_job :
    (r : Registry) (wall : ℕ → ℕ) (c : SafetyConfig) (now : ℕ)
    → (p : Option Pacing) (b : Option Burst) (s : Option AccountState) (waits : ℕ)
    → let v = classify_account_state r wall c now p b s in
      (v.kind ≡ temporary
        → waits < max_cooldown_waits
        → (t : ℕ) × (plan_job v waits now ≡ delay t (waits + 1)) × (now + 1000 ≤ t))
      × (v.kind ≡ permanent → plan_job v waits now ≡ skip false)
unfolding plan_job
classify_account_state-plan_job r wall c now p b s waits =
    let v = classify_account_state r wall c now p b s in
    (
      wait v.kind v.reason v.retry_at v.paced (classify_account_state-IsSound r wall c now p b s),
      λ h. ground arith,
    )
  where
    wait :
        (k : Availability) (why : Option Reason) (r : Option ℕ) (paced : Bool)
        → Shape now k why r paced
        → k ≡ temporary
        → waits < max_cooldown_waits
        → (t : ℕ) × (plan_for k r waits (if paced then max_paced_waits else max_cooldown_waits) now
            ≡ delay t (waits + 1))
          × (now + 1000 ≤ t)
    wait temporary (some x) (some t) true h e l = (max t (now + 1000), ground arith, omega arith)
    wait temporary (some x) (some t) false h e l = (max t (now + 1000), ground arith, omega arith)
    wait temporary none r paced h e l = absurd h
    wait temporary (some x) none paced h e l = absurd h
    wait available why r paced h e l = cc
    wait permanent why r paced h e l = cc

abbrev waits_of : Action → Option ℕ
waits_of (delay t n) = some n
waits_of (skip x) = none

-- The waits of a job that comes up again and again; `none` once it is skipped.
unfoldable pub waits_after : ℕ → List (Verdict × ℕ) → Option ℕ
waits_after waits [] = some waits
waits_after waits ((v, now) ∷ vs) = elim (waits_of (plan_job v waits now)) [
  | none ↦ none
  | some n ↦ waits_after n vs
]

plan_job-waits :
    (v : Verdict) (waits now : ℕ)
    → (waits_of (plan_job v waits now) ≡ none)
      ⊎ ((waits_of (plan_job v waits now) ≡ some (waits + 1)) × (waits < max_paced_waits))
unfolding plan_job
plan_job-waits v waits now = cases v.kind v.retry_at v.paced
  where
    cases :
        (k : Availability) (r : Option ℕ) (paced : Bool)
        → let a = plan_for k r waits (if paced then max_paced_waits else max_cooldown_waits) now in
          (waits_of a ≡ none) ⊎ ((waits_of a ≡ some (waits + 1)) × (waits < max_paced_waits))
    cases temporary (some t) true = elim (Bool-cases (ltb waits max_paced_waits)) [
      | inl e ↦ rw e (inr (refl, ltb→lt _ _ e))
      | inr e ↦ rw e (inl refl)
    ]
    cases temporary (some t) false = elim (Bool-cases (ltb waits max_cooldown_waits)) [
      | inl e ↦ rw e (inr (refl, omega (arith, ltb→lt waits max_cooldown_waits e)))
      | inr e ↦ rw e (inl refl)
    ]
    cases temporary none paced = inl refl
    cases available r paced = inl refl
    cases permanent r paced = inl refl

-- Every wait is counted, and there are never more than 120: a job that comes up more often while its
-- account cannot run, for whatever reasons and at whatever times, is skipped.
waits_after-bounded :
    (waits : ℕ) (vs : List (Verdict × ℕ)) (n : ℕ)
    → waits ≤ max_paced_waits
    → waits_after waits vs ≡ some n
    → (n ≡ waits + length vs) × (n ≤ max_paced_waits)
unfolding waits_after
waits_after-bounded waits [] n h e = (ground arith, ground arith)
waits_after-bounded waits ((v, now) ∷ vs) n h e = elim (plan_job-waits v waits now) [
  | inl f ↦ absurd (ground arith)
  | inr (f, lt) ↦
      let (count, bound) =
        waits_after-bounded (waits + 1) vs n (omega arith) (rw (f, waits_after) at e) in
      (omega arith, bound)
]

-- A wait that the pacing asks for.
abbrev pub IsPacedWait : Verdict → Type 0
IsPacedWait v = (v.kind ≡ temporary) × (v.retry_at ≢ none) × (v.paced ≡ true)

abbrev pub AllPaced : List (Verdict × ℕ) → Type 0
AllPaced [] = Unit {0}
AllPaced ((v, now) ∷ vs) = IsPacedWait v × AllPaced vs

paced_wait :
    (v : Verdict) (waits now : ℕ)
    → IsPacedWait v
    → waits < max_paced_waits
    → waits_of (plan_job v waits now) ≡ some (waits + 1)
unfolding plan_job plan_unavailable_job plan_for
paced_wait v waits now (temp, timed, paced) h = ground arith

waits_after-paced :
    (waits : ℕ) (vs : List (Verdict × ℕ))
    → AllPaced vs
    → waits + length vs ≤ max_paced_waits
    → waits_after waits vs ≡ some (waits + length vs)
unfolding waits_after
waits_after-paced waits [] all h = ground arith
waits_after-paced waits ((v, now) ∷ vs) (first, all) h =
    rw (paced_wait v waits now first (omega arith), waits_after)
      (waits_after-paced (waits + 1) vs all (omega arith) ∙ ap some (omega arith))

-- The planned waits of the pacing are counted with the others. So a job that has kept three or more of
-- them, at most 120, and none for any other reason, is skipped as exhausted at the first cooldown, limit or
-- interval that it meets.
pub paced_waits_use_up :
    (vs : List (Verdict × ℕ)) (v : Verdict) (t now : ℕ)
    → AllPaced vs
    → max_cooldown_waits ≤ length vs
    → length vs ≤ max_paced_waits
    → v.kind ≡ temporary
    → v.retry_at ≡ some t
    → v.paced ≡ false
    → (n : ℕ) × (waits_after 0 vs ≡ some n) × (plan_job v n now ≡ skip true)
unfolding plan_job plan_unavailable_job plan_for
paced_waits_use_up vs v t now all low high temp timed unpaced =
    (length vs, waits_after-paced 0 vs all (omega arith) ∙ ap some (omega arith), ground arith)
