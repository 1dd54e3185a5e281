-- ===== src/Account/Life.antt =====
-- The life of an account's row: the steps that src/worker.js and src/api/remote-auth.js drive it by.
-- The check of an account and the start of its run are two steps, as the waits for a slot and a lease lie
-- between them: several jobs may have passed the check before one of them starts its run.
pub mod Room
pub mod Daily
pub mod Streak
pub mod Block
use one_gl.Prelude.{ℕ, zero, suc, ◌-◌, Bool, Option, List, [], ◌∷◌}
use one_gl.Providers.{Registry, Pacing}
use one_gl.Account.State.{AccountState, SafetyConfig, ErrorCode}
use one_gl.Account.Classify.{
  Availability, available, temporary, permanent, Burst, classify_account_state,
}
use one_gl.Account.Ops.{
  begin_account_run, record_account_success, record_account_failure, resume_account,
  set_account_enabled, mark_storage_state_present, mark_login_connected,
}
use one_gl.Prelude.{some}

-- The row, and the jobs that passed the check and have not begun their runs.
pub record AccountLife : Type 0 where
  pub row : AccountState
  pub admitted : ℕ

pub data Event : Type 0 where
  -- a job asks for the verdict, with the counts that its queries give
  checks : ℕ → Option Burst → ℕ → Option ℕ → Event
  -- a job that passed the check begins its run
  begins : ℕ → Event
  -- a job that passed the check ends before its run begins
  leaves : Event
  success : ℕ → Event
  failure : ℕ → ErrorCode → Event
  resume : Event
  enable storage : Bool → Event
  login : ℕ → Event

-- The counts over the last hour are read with the row.
abbrev pub with_counts : ℕ → Option ℕ → AccountState → AccountState
with_counts runs oldest s = record s { runs_last_hour = runs; hour_window_oldest = oldest }

-- Only an available account lets the job go on.
abbrev pub admits : Availability → AccountLife → AccountLife
admits available l = record l { admitted = suc l.admitted }
admits temporary l = l
admits permanent l = l

abbrev pub begin_one : (ℕ → ℕ) → ℕ → AccountState → ℕ → AccountLife
begin_one wall now s zero = record { row = s; admitted = zero }
begin_one wall now s (suc n) = record { row = begin_account_run wall now s; admitted = n }

abbrev pub with_row : AccountState → AccountLife → AccountLife
with_row s l = record l { row = s }

unfoldable pub step :
    Registry → (ℕ → ℕ) → SafetyConfig → Option Pacing → AccountLife → Event → AccountLife
step r wall c p l (checks now b runs oldest) =
    admits (classify_account_state r wall c now p b (some (with_counts runs oldest l.row))).kind l
step r wall c p l (begins now) = begin_one wall now l.row l.admitted
step r wall c p l leaves = record l { admitted = l.admitted - 1 }
step r wall c p l (success now) = with_row (record_account_success now l.row) l
step r wall c p l (failure now code) = with_row (record_account_failure r c now code l.row).0 l
step r wall c p l resume = with_row (resume_account l.row) l
step r wall c p l (enable on) = with_row (set_account_enabled on l.row) l
step r wall c p l (storage present) = with_row (mark_storage_state_present present l.row) l
step r wall c p l (login now) = with_row (mark_login_connected now l.row) l

unfoldable pub run :
    Registry → (ℕ → ℕ) → SafetyConfig → Option Pacing → AccountLife → List Event → AccountLife
run r wall c p l [] = l
run r wall c p l (e ∷ es) = run r wall c p (step r wall c p l e) es
