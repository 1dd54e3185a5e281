-- ===== src/Account/Life/Room.antt =====
-- What the runs of a day and the jobs that passed the check of src/worker.js come to together.
use one_gl.Prelude.{
  ℕ, suc, ◌+◌, ◌-◌, ◌<◌, ◌≤◌, ◌≡◌, Bool-cases, inl, inr, Option, none, some, arith, ◌==◌,
}
use one_gl.Account.Classify.{runs_on}
use one_gl.Account.Ops.{next_count}

-- The day of the row is `day` or an earlier one.
abbrev pub IsPast : ℕ → Option ℕ → Type 0
IsPast day none = Unit
IsPast day (some d) = d ≤ day

-- What the jobs that passed the check on `day` can still add.
abbrev pub HasRoom : ℕ → ℕ → ℕ → ℕ → Option ℕ → Type 0
HasRoom limit day runs admitted none = Unit
HasRoom limit day runs admitted (some d) = d ≡ day → runs + admitted < limit

pub runs_on-room :
    (limit day t runs admitted jobs : ℕ) (date : Option ℕ)
    → IsPast t date
    → t ≤ day
    → runs_on day runs date < limit
    → suc admitted ≤ jobs
    → HasRoom (limit + jobs) day runs (suc admitted) date
runs_on-room limit day t runs admitted jobs none past later under h = tt
runs_on-room limit day t runs admitted jobs (some d) past later under h = λ e. ground arith

pub later-room :
    (limit day t runs admitted : ℕ) (date : Option ℕ)
    → IsPast t date
    → t ≤ day
    → HasRoom limit t runs admitted date
    → HasRoom limit day runs admitted date
later-room limit day t runs admitted none past later room = tt
later-room limit day t runs admitted (some d) past later room = λ e. room (omega (arith, e))

pub later-IsPast : (day t : ℕ) (date : Option ℕ) → IsPast t date → t ≤ day → IsPast day date
later-IsPast day t none past later = tt
later-IsPast day t (some d) past later = omega arith

pub fewer-room :
    (limit day runs admitted : ℕ) (date : Option ℕ)
    → HasRoom limit day runs admitted date
    → HasRoom limit day runs (admitted - 1) date
fewer-room limit day runs admitted none room = tt
fewer-room limit day runs admitted (some d) room = λ e. omega (arith, room e)

-- With no job between its check and its begin, the bound on the runs is all that is left.
pub idle-room :
    (limit day runs : ℕ) (date : Option ℕ) → runs < limit → HasRoom limit day runs 0 date
idle-room limit day runs none h = tt
idle-room limit day runs (some d) h = λ e. omega (arith, h)

-- A run that begins leaves the sum of the runs and the jobs of its day as it was, or is the first.
pub next_count-room :
    (limit day t runs admitted jobs : ℕ) (date : Option ℕ)
    → IsPast t date
    → t ≤ day
    → HasRoom (limit + jobs) t runs (suc admitted) date
    → 1 ≤ limit
    → suc admitted ≤ jobs
    → next_count day runs date + admitted < limit + jobs
next_count-room limit day t runs admitted jobs none past later room h k = omega arith
next_count-room limit day t runs admitted jobs (some d) past later room h k =
    elim (Bool-cases (d == day)) [
      | inl same ↦
          let e : d ≡ day = ground arith in
          let t_is : d ≡ t = omega (arith, e) in rw same (omega (arith, room t_is))
      | inr other ↦ rw other (omega arith)
    ]
