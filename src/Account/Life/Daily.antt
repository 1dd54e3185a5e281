-- ===== src/Account/Life/Daily.antt =====
-- The daily limit over any history of an account with a stored login.
use one_gl.Prelude.{
  ℕ, zero, suc, ◌+◌, ◌<◌, ◌≤◌, ◌≡◌, refl, false, Option, some, List, [], ◌∷◌, arith,
}
use one_gl.Providers.{Registry, Pacing, is_credential_free_surface}
use one_gl.Account.State.{AccountState, SafetyConfig, ErrorCode}
use one_gl.Account.Clock.{account_day_key}
use one_gl.Account.Classify.{
  Availability, available, temporary, permanent, Burst, classify_account_state,
}
use one_gl.Account.Classify.Runnable.{classify_account_state-available_iff}
use one_gl.Account.Ops.{
  begin_account_run, record_account_success, record_account_failure, resume_account,
  set_account_enabled, mark_storage_state_present, mark_login_connected,
}
use one_gl.Account.Life.Room.{
  IsPast, HasRoom, runs_on-room, later-room, later-IsPast, fewer-room, idle-room, next_count-room,
}
use one_gl.Account.Life.{
  AccountLife, Event, checks, begins, leaves, success, failure, resume, enable, storage, login,
  with_counts, admits, begin_one, step, run,
}

-- The runs of the row's day, on a surface with a stored login, stay below `limit + jobs`.
pub record IsCapped (r : Registry) (c : SafetyConfig) (jobs : ℕ) (s : AccountState) : Type 0 where
  pub stored : is_credential_free_surface r s.provider ≡ false
  pub capped : s.runs_today < c.account_daily_limit + jobs

-- The day after an event: only the check and the begin of a run read the clock for it.
abbrev pub day_after : (ℕ → ℕ) → ℕ → Event → ℕ
day_after wall day (checks now b runs oldest) = account_day_key wall now
day_after wall day (begins now) = account_day_key wall now
day_after wall day leaves = day
day_after wall day (success now) = day
day_after wall day (failure now code) = day
day_after wall day resume = day
day_after wall day (enable on) = day
day_after wall day (storage present) = day
day_after wall day (login now) = day

-- The days of the events never go back.
abbrev pub InOrder : (ℕ → ℕ) → ℕ → List Event → Type 0
InOrder wall day [] = Unit
InOrder wall day (e ∷ es) = (day ≤ day_after wall day e) × InOrder wall (day_after wall day e) es

record_account_failure-frame :
    (r : Registry) (c : SafetyConfig) (now : ℕ) (code : ErrorCode) (s : AccountState)
    → ((record_account_failure r c now code s).0.provider ≡ s.provider)
      × ((record_account_failure r c now code s).0.runs_today ≡ s.runs_today)
unfolding record_account_failure
record_account_failure-frame r c now code s = (ground arith, ground arith)

record IsWithin (r : Registry) (c : SafetyConfig) (jobs day : ℕ) (s : AccountState) (admitted : ℕ)
    : Type 0 where
  pub cap : IsCapped r c jobs s
  pub few : admitted ≤ jobs
  pub past : IsPast day s.runs_today_date
  pub room : HasRoom (c.account_daily_limit + jobs) day s.runs_today admitted s.runs_today_date

record_account_failure-date :
    (r : Registry) (c : SafetyConfig) (now : ℕ) (code : ErrorCode) (s : AccountState)
    → (record_account_failure r c now code s).0.runs_today_date ≡ s.runs_today_date
unfolding record_account_failure
record_account_failure-date r c now code s = ground arith

module _ (r : Registry) (wall : ℕ → ℕ) (c : SafetyConfig) (p : Option Pacing) (jobs : ℕ) where
  -- The jobs that passed the check and have not begun never are more than `jobs`.
  abbrev pub AtMost : AccountLife → List Event → Type 0
  AtMost l [] = Unit
  AtMost l (e ∷ es) = let l' = step r wall c p l e in (l'.admitted ≤ jobs) × AtMost l' es

  same-IsWithin :
      (day : ℕ) (s s' : AccountState) (n : ℕ)
      → s'.provider ≡ s.provider
      → s'.runs_today ≡ s.runs_today
      → s'.runs_today_date ≡ s.runs_today_date
      → IsWithin r c jobs day s n
      → IsWithin r c jobs day s' n
  same-IsWithin day s s' n same runs date v = record {
    cap = record { stored = rw same v.cap.stored; capped = rw runs v.cap.capped };
    few = v.few;
    past = rw date v.past;
    room = rw (runs, date) v.room;
  }

  admits-IsWithin :
      (t now : ℕ) (b : Option Burst) (runs : ℕ) (oldest : Option ℕ) (l : AccountLife)
      (k : Availability)
      → (classify_account_state r wall c now p b (some (with_counts runs oldest l.row))).kind ≡ k
      → t ≤ account_day_key wall now
      → (admits k l).admitted ≤ jobs
      → IsWithin r c jobs t l.row l.admitted
      → IsWithin r c jobs (account_day_key wall now) (admits k l).row (admits k l).admitted
  admits-IsWithin t now b runs oldest l available e later h v =
      let may =
        (classify_account_state-available_iff r wall c now p b (with_counts runs oldest l.row)).0
          e in
      let day = account_day_key wall now in
      record {
        cap = v.cap;
        few = h;
        past = later-IsPast day t l.row.runs_today_date v.past later;
        room =
            runs_on-room c.account_daily_limit day t l.row.runs_today l.admitted jobs
              l.row.runs_today_date v.past later (may.2.1 v.cap.stored).under_daily h;
      }
  admits-IsWithin t now b runs oldest l temporary e later h v = record {
    cap = v.cap;
    few = h;
    past = later-IsPast (account_day_key wall now) t l.row.runs_today_date v.past later;
    room =
        later-room (c.account_daily_limit + jobs) (account_day_key wall now) t l.row.runs_today
          l.admitted l.row.runs_today_date v.past later v.room;
  }
  admits-IsWithin t now b runs oldest l permanent e later h v = record {
    cap = v.cap;
    few = h;
    past = later-IsPast (account_day_key wall now) t l.row.runs_today_date v.past later;
    room =
        later-room (c.account_daily_limit + jobs) (account_day_key wall now) t l.row.runs_today
          l.admitted l.row.runs_today_date v.past later v.room;
  }

  begin_one-IsWithin :
      (t now : ℕ) (s : AccountState) (n : ℕ)
      → 1 ≤ c.account_daily_limit
      → t ≤ account_day_key wall now
      → IsWithin r c jobs t s n
      → let l = begin_one wall now s n in
        IsWithin r c jobs (account_day_key wall now) l.row l.admitted
  unfolding begin_account_run
  begin_one-IsWithin t now s zero one later v = record {
    cap = v.cap;
    few = v.few;
    past = later-IsPast (account_day_key wall now) t s.runs_today_date v.past later;
    room =
        later-room (c.account_daily_limit + jobs) (account_day_key wall now) t s.runs_today 0
          s.runs_today_date v.past later v.room;
  }
  begin_one-IsWithin t now s (suc n) one later v =
      let day = account_day_key wall now in
      let sum =
        next_count-room c.account_daily_limit day t s.runs_today n jobs s.runs_today_date v.past
          later v.room one v.few in
      record {
        cap = record { stored = v.cap.stored; capped = omega (arith, sum) };
        few = omega (arith, v.few);
        past = omega arith;
        room = λ same. sum;
      }

  step-IsWithin :
      (t : ℕ) (l : AccountLife) (e : Event)
      → 1 ≤ c.account_daily_limit
      → t ≤ day_after wall t e
      → (step r wall c p l e).admitted ≤ jobs
      → IsWithin r c jobs t l.row l.admitted
      → let l' = step r wall c p l e in IsWithin r c jobs (day_after wall t e) l'.row l'.admitted
  unfolding step
  step-IsWithin t l (checks now b runs oldest) one later h v =
      admits-IsWithin t now b runs oldest l _ refl later h v
  step-IsWithin t l (begins now) one later h v =
      begin_one-IsWithin t now l.row l.admitted one later v
  step-IsWithin t l leaves one later h v = record {
    cap = v.cap;
    few = h;
    past = v.past;
    room =
        fewer-room (c.account_daily_limit + jobs) t l.row.runs_today l.admitted
          l.row.runs_today_date v.room;
  }
  step-IsWithin t l (success now) one later h v =
      unfold record_account_success in same-IsWithin t l.row _ l.admitted refl refl refl v
  step-IsWithin t l (failure now code) one later h v =
      let (same, runs) = record_account_failure-frame r c now code l.row in
      same-IsWithin t l.row _ l.admitted same runs (record_account_failure-date r c now code l.row)
        v
  step-IsWithin t l resume one later h v =
      unfold resume_account in same-IsWithin t l.row _ l.admitted refl refl refl v
  step-IsWithin t l (enable on) one later h v =
      unfold set_account_enabled in same-IsWithin t l.row _ l.admitted refl refl refl v
  step-IsWithin t l (storage present) one later h v =
      unfold mark_storage_state_present in same-IsWithin t l.row _ l.admitted refl refl refl v
  step-IsWithin t l (login now) one later h v =
      unfold mark_login_connected in same-IsWithin t l.row _ l.admitted refl refl refl v

  run-IsWithin :
      (t : ℕ) (l : AccountLife) (es : List Event)
      → 1 ≤ c.account_daily_limit
      → InOrder wall t es
      → AtMost l es
      → IsWithin r c jobs t l.row l.admitted
      → IsCapped r c jobs (run r wall c p l es).row
  unfolding run
  run-IsWithin t l [] one order few v = v.cap
  run-IsWithin t l (e ∷ es) one (later, order) (h, few) v =
      run-IsWithin (day_after wall t e) (step r wall c p l e) es one order few
        (step-IsWithin t l e one later h v)

  -- Over any history of checks, begins of runs, successes, failures, resumptions, switches and logins,
  -- in any order, where the local days of the checks and the begins never go back and at most `jobs` jobs
  -- of the account stand between their check and their begin at any time: with a daily limit of 1 or
  -- more, an account with a stored login, whose row has a day that is not to come and counts fewer runs
  -- than the limit and `jobs` together, never counts that many for a day. With one such job at a time
  -- that is the limit itself; each further job can exceed it by one.
  pub run-IsCapped :
      (day : ℕ) (s : AccountState) (es : List Event)
      → 1 ≤ c.account_daily_limit
      → IsPast day s.runs_today_date
      → InOrder wall day es
      → AtMost (record { row = s; admitted = 0 }) es
      → IsCapped r c jobs s
      → IsCapped r c jobs (run r wall c p (record { row = s; admitted = 0 }) es).row
  run-IsCapped day s es one past order few v =
      run-IsWithin day (record { row = s; admitted = 0 }) es one order few
        (record {
          cap = v;
          few = omega arith;
          past = past;
          room =
              idle-room (c.account_daily_limit + jobs) day s.runs_today s.runs_today_date v.capped;
        })
