-- ===== src/Api/Idempotency.antt =====
-- Requests that are made at most once (src/api/idempotency.js): `beginSaasIdempotency` and
-- `completeSaasIdempotency` over the table service_idempotency_keys. The hash of a request's body is made
-- by a library; the responses are of any type.
pub mod Once
pub mod Replay
use text.Mathlib.Text
use one_gl.Prelude.{
  ℕ, zero, suc, ◌+◌, Bool, true, false, ◌&&◌, Option, none, some, List, [], ◌∷◌, ◌++◌,
  if◌then◌else◌, ◌==◌, String,
}

pub record RequestKey : Type 0 where
  pub tenant_id : ℕ
  pub operation : String
  pub key : String

unfoldable pub is_same : RequestKey → RequestKey → Bool
is_same a b =
    a.tenant_id == b.tenant_id && (Text.◌==◌ a.operation b.operation && Text.◌==◌ a.key b.key)

-- A row without a response is one whose request is still made.
pub record KeyRow {ℓ} (Response : Type ℓ) : Type ℓ where
  pub id : ℕ
  pub request : RequestKey
  pub request_hash : String
  pub response : Option Response

pub record KeyTable {ℓ} (Response : Type ℓ) : Type ℓ where
  pub rows : List (KeyRow Response)
  pub next_id : ℕ

pub data Started {ℓ} (Response : Type ℓ) : Type ℓ where
  fresh : ℕ → Started Response
  replay : Response → Started Response
  idempotency_conflict idempotency_in_progress : Started Response

pub data RequestEvent {ℓ} (Response : Type ℓ) : Type ℓ where
  begins : RequestKey → String → RequestEvent Response
  completes : ℕ → Response → RequestEvent Response

module _ {ℓ} {Response : Type ℓ} where
  -- The unique row of a key.
  unfoldable pub row_of : RequestKey → List (KeyRow Response) → Option (KeyRow Response)
  row_of k [] = none
  row_of k (r ∷ rs) = if is_same k r.request then some r else row_of k rs

  abbrev pub answer_of : Option Response → Started Response
  answer_of none = idempotency_in_progress
  answer_of (some response) = replay response

  abbrev pub start_with :
      RequestKey
      → String
      → KeyTable Response
      → Option (KeyRow Response)
      → Started Response × KeyTable Response
  start_with k request_hash t none = (
    fresh t.next_id,
    record {
      rows =
          t.rows
          ++ record { id = t.next_id; request = k; request_hash = request_hash; response = none }
            ∷ [];
      next_id = suc t.next_id;
    },
  )
  start_with k request_hash t (some r) = (
    if Text.◌==◌ r.request_hash request_hash then answer_of r.response else idempotency_conflict,
    t,
  )

  -- The insertion, and what is found where it did nothing.
  unfoldable pub begin_saas_idempotency :
      RequestKey → String → KeyTable Response → Started Response × KeyTable Response
  unfolding row_of
  begin_saas_idempotency k request_hash t = start_with k request_hash t (row_of k t.rows)

  abbrev pub first_response : Option Response → Response → Option Response
  first_response none response = some response
  first_response (some earlier) response = some earlier

  abbrev pub complete_row : ℕ → Response → KeyRow Response → KeyRow Response
  complete_row id response r =
      if r.id == id then record r { response = first_response r.response response } else r

  unfoldable pub complete_rows : ℕ → Response → List (KeyRow Response) → List (KeyRow Response)
  complete_rows id response [] = []
  complete_rows id response (r ∷ rs) = complete_row id response r ∷ complete_rows id response rs

  unfoldable pub complete_saas_idempotency : ℕ → Response → KeyTable Response → KeyTable Response
  unfolding complete_rows
  complete_saas_idempotency id response t = record t { rows = complete_rows id response t.rows }

  -- The requests of several clients and servers, in the order in which the table sees them.
  unfoldable pub table_after : KeyTable Response → List (RequestEvent Response) → KeyTable Response
  unfolding begin_saas_idempotency complete_saas_idempotency
  table_after t [] = t
  table_after t (begins k h ∷ es) = table_after (begin_saas_idempotency k h t).1 es
  table_after t (completes id response ∷ es) =
      table_after (complete_saas_idempotency id response t) es

  abbrev pub is_fresh : Started Response → Bool
  is_fresh (fresh id) = true
  is_fresh (replay response) = false
  is_fresh idempotency_conflict = false
  is_fresh idempotency_in_progress = false

  -- How often a request with a key is made.
  unfoldable pub times_made : RequestKey → KeyTable Response → List (RequestEvent Response) → ℕ
  unfolding begin_saas_idempotency complete_saas_idempotency
  times_made k t [] = 0
  times_made k t (begins k' h ∷ es) =
      let (started, t') = begin_saas_idempotency k' h t in
      (if is_same k k' && is_fresh started then 1 else 0) + times_made k t' es
  times_made k t (completes id response ∷ es) =
      times_made k (complete_saas_idempotency id response t) es
