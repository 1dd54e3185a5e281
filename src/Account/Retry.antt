-- ===== src/Account/Retry.antt =====
-- The retry policy and the tables of error codes of src/accounts/safety.js.
use one_gl.Prelude.{Bool, true, false, Option, none, some, not, ◌≡◌, ◌⊎◌, if◌then◌else◌, arith}
use one_gl.Account.State.{
  Status, login_required, session_expired, verification_required, access_restricted, rate_limited,
  ErrorCode, doubao_login_required, doubao_session_expired, doubao_verification_required,
  doubao_access_restricted, rate_limit, database_error, redis_error, storage_error, doubao_timeout,
  network_error, doubao_conversation_reset_failed, doubao_submission_failed, page_changed,
  answer_not_found, doubao_submit_degraded,
}

-- An entry of ACCOUNT_BLOCKING_CODES.
pub record Blocking : Type 0 where
  pub status : Status
  pub manual : Bool

unfoldable pub account_blocking_codes : ErrorCode → Option Blocking
account_blocking_codes doubao_login_required =
    some (record { status = login_required; manual = true })
account_blocking_codes doubao_session_expired =
    some (record { status = session_expired; manual = true })
account_blocking_codes doubao_verification_required =
    some (record { status = verification_required; manual = true })
account_blocking_codes doubao_access_restricted =
    some (record { status = access_restricted; manual = true })
account_blocking_codes rate_limit = some (record { status = rate_limited; manual = false })
account_blocking_codes _ = none

unfoldable pub infrastructure_error_codes : ErrorCode → Bool
infrastructure_error_codes database_error = true
infrastructure_error_codes redis_error = true
infrastructure_error_codes storage_error = true
infrastructure_error_codes _ = false

unfoldable pub retryable_codes : ErrorCode → Bool
retryable_codes doubao_timeout = true
retryable_codes network_error = true
retryable_codes doubao_conversation_reset_failed = true
retryable_codes doubao_submission_failed = true
retryable_codes page_changed = true
retryable_codes answer_not_found = true
retryable_codes doubao_submit_degraded = true
retryable_codes _ = false

unfoldable pub resubmit_unsafe_codes : ErrorCode → Bool
resubmit_unsafe_codes doubao_timeout = true
resubmit_unsafe_codes network_error = true
resubmit_unsafe_codes doubao_submission_failed = true
resubmit_unsafe_codes page_changed = true
resubmit_unsafe_codes _ = false

abbrev blocks : Option Blocking → Bool
blocks none = false
blocks (some b) = true

unfoldable pub is_blocking : ErrorCode → Bool
unfolding account_blocking_codes
is_blocking code = blocks (account_blocking_codes code)

-- `details?.promptSubmitted`, where `none` is a missing value.
unfoldable pub can_retry_outcome : ErrorCode → Option Bool → Bool
unfolding retryable_codes resubmit_unsafe_codes
can_retry_outcome code submitted =
    if not (retryable_codes code)
    then false
    else if not (resubmit_unsafe_codes code)
    then true
    else elim submitted [ none ↦ false | some true ↦ false | some false ↦ true ]

-- The codes that may be sent again though the prompt may have reached the platform.
abbrev pub IsFreshWindowCode : ErrorCode → Type 0
IsFreshWindowCode code =
    (code ≡ doubao_conversation_reset_failed)
    ⊎ (code ≡ answer_not_found)
    ⊎ (code ≡ doubao_submit_degraded)

-- A failure is retried only with the proof that the prompt was not submitted, or if it is one of
-- the three codes whose retry gets a fresh conversation; and then it neither blocks the account nor
-- is an error of the infrastructure.
pub can_retry_outcome_safe :
    (code : ErrorCode) (submitted : Option Bool)
    → can_retry_outcome code submitted ≡ true
    → ((submitted ≡ some false) ⊎ IsFreshWindowCode code)
      × (is_blocking code ≡ false)
      × (infrastructure_error_codes code ≡ false)
unfolding can_retry_outcome is_blocking infrastructure_error_codes
can_retry_outcome_safe code submitted h = ground arith

-- The proof that nothing was submitted is enough for every retryable code, and it adds no other.
pub can_retry_outcome-unsubmitted :
    (code : ErrorCode) → can_retry_outcome code (some false) ≡ retryable_codes code
unfolding can_retry_outcome
can_retry_outcome-unsubmitted code = ground arith
