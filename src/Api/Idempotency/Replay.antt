-- ===== src/Api/Idempotency/Replay.antt =====
-- A request that comes again gets the response of the first (src/api/idempotency.js).
use text.Mathlib.Text
use mathlib.Core.Option.{some-injective}
use text.Mathlib.TextPositions.{eq_refl}
use one_gl.Prelude.{
  ℕ, ◌≡◌, ◌≢◌, refl, ap, ◌∙◌, Bool, true, false, Option, none, some, List, [], ◌∷◌, ◌++◌,
  if◌then◌else◌, ◌==◌, String, arith, All, if-both,
}
use one_gl.Api.Idempotency.{
  RequestKey, is_same, KeyRow, KeyTable, Started, fresh, RequestEvent, begins, completes, row_of,
  start_with, begin_saas_idempotency, complete_row, complete_rows, complete_saas_idempotency,
  replay, idempotency_conflict, idempotency_in_progress, answer_of, is_fresh, table_after,
}

is_same_refl : (k : RequestKey) → is_same k k ≡ true
unfolding is_same
is_same_refl k = rw (eq_refl k.operation, eq_refl k.key) (ground arith)

module _ {ℓ} {Response : Type ℓ} where
  abbrev pub Holds : RequestKey → KeyTable Response → KeyRow Response → Type ℓ
  Holds k t r = row_of k t.rows ≡ some r

  -- The event is no response to the request with this id.
  abbrev pub IsOther : ℕ → RequestEvent Response → Type 0
  IsOther id (begins k h) = Unit
  IsOther id (completes i response) = id ≢ i

  row_of-append :
      (k : RequestKey) (rs : List (KeyRow Response)) (s : KeyRow Response) (r : KeyRow Response)
      → row_of k rs ≡ some r
      → row_of k (rs ++ s ∷ []) ≡ some r
  unfolding row_of
  row_of-append k [] s r e = cc
  row_of-append k (q ∷ rs) s r e =
      found (is_same k q.request) (row_of k rs) _ (row_of-append k rs s r) e
    where
      found :
          (b : Bool) (o p : Option (KeyRow Response))
          → (o ≡ some r → p ≡ some r)
          → (if b then some q else o) ≡ some r
          → (if b then some q else p) ≡ some r
      found true o p f h = h
      found false o p f h = f h

  row_of-append_new :
      (k : RequestKey) (rs : List (KeyRow Response)) (s : KeyRow Response)
      → is_same k s.request ≡ true
      → row_of k rs ≡ none
      → row_of k (rs ++ s ∷ []) ≡ some s
  unfolding row_of
  row_of-append_new k [] s same e = rw same refl
  row_of-append_new k (q ∷ rs) s same e =
      absent (is_same k q.request) (row_of k rs) _ (row_of-append_new k rs s same) e
    where
      absent :
          (b : Bool) (o p : Option (KeyRow Response))
          → (o ≡ none → p ≡ some s)
          → (if b then some q else o) ≡ none
          → (if b then some q else p) ≡ some s
      absent true o p f h = cc
      absent false o p f h = f h

  complete_row_request :
      (id : ℕ) (response : Response) (r : KeyRow Response)
      → (complete_row id response r).request ≡ r.request
  complete_row_request id response r =
      if-both (λ (s : KeyRow Response). s.request ≡ r.request) (r.id == id) refl refl

  row_of-complete_rows :
      (k : RequestKey) (id : ℕ) (response : Response) (rs : List (KeyRow Response))
      (r : KeyRow Response)
      → row_of k rs ≡ some r
      → row_of k (complete_rows id response rs) ≡ some (complete_row id response r)
  unfolding row_of complete_rows
  row_of-complete_rows k id response [] r e = cc
  row_of-complete_rows k id response (q ∷ rs) r e =
      rw (complete_row_request id response q)
        (found (is_same k q.request) (row_of k rs) _ (row_of-complete_rows k id response rs r) e)
    where
      found :
          (b : Bool) (o p : Option (KeyRow Response))
          → (o ≡ some r → p ≡ some (complete_row id response r))
          → (if b then some q else o) ≡ some r
          → (if b then some (complete_row id response q) else p) ≡ some (complete_row id response r)
      found true o p f h = ap some (ap (complete_row id response) (some-injective q r h))
      found false o p f h = f h

  begin-Holds :
      (k k' : RequestKey) (h : String) (t : KeyTable Response) (r : KeyRow Response)
      → Holds k t r
      → Holds k (begin_saas_idempotency k' h t).1 r
  unfolding begin_saas_idempotency
  begin-Holds k k' h t r e = kept (row_of k' t.rows)
    where
      kept : (o : Option (KeyRow Response)) → Holds k (start_with k' h t o).1 r
      kept none = row_of-append k t.rows _ r e
      kept (some s) = e

  complete_row-other :
      (id : ℕ) (response : Response) (r : KeyRow Response)
      → r.id ≢ id
      → complete_row id response r ≡ r
  complete_row-other id response r h =
      let differs : (r.id == id) ≡ false = ground arith in rw differs refl

  complete_row-answered :
      (id : ℕ) (later response : Response) (r : KeyRow Response)
      → complete_row id later (record r { response = some response })
        ≡ record r { response = some response }
  complete_row-answered id later response r =
      if-both (λ (s : KeyRow Response). s ≡ record r { response = some response }) (r.id == id) refl
        refl

  -- What the row of a key is after some events, where none of them answers it.
  table_after-Holds :
      (k : RequestKey) (t : KeyTable Response) (r : KeyRow Response)
      (es : List (RequestEvent Response))
      → All (IsOther r.id) es
      → Holds k t r
      → Holds k (table_after t es) r
  unfolding table_after complete_saas_idempotency
  table_after-Holds k t r [] others e = e
  table_after-Holds k t r (begins k' h ∷ es) others e =
      table_after-Holds k (begin_saas_idempotency k' h t).1 r es others.1 (begin-Holds k k' h t r e)
  table_after-Holds k t r (completes id response ∷ es) others e =
      table_after-Holds k (complete_saas_idempotency id response t) r es others.1 (
        row_of-complete_rows k id response t.rows r e
        ∙ ap some (complete_row-other id response r others.0))

  -- A row that has its response keeps it.
  table_after-answered :
      (k : RequestKey) (t : KeyTable Response) (r : KeyRow Response) (response : Response)
      (es : List (RequestEvent Response))
      → Holds k t (record r { response = some response })
      → Holds k (table_after t es) (record r { response = some response })
  unfolding table_after complete_saas_idempotency
  table_after-answered k t r response [] e = e
  table_after-answered k t r response (begins k' h ∷ es) e =
      table_after-answered k (begin_saas_idempotency k' h t).1 r response es
        (begin-Holds k k' h t _ e)
  table_after-answered k t r response (completes id later ∷ es) e =
      table_after-answered k (complete_saas_idempotency id later t) r response es (
        row_of-complete_rows k id later t.rows _ e
        ∙ ap some (complete_row-answered id later response r))

  id_of : Started Response → ℕ
  id_of (fresh id) = id
  id_of (replay response) = 0
  id_of idempotency_conflict = 0
  id_of idempotency_in_progress = 0

  answer_of-not_fresh : (o : Option Response) → is_fresh (answer_of o) ≡ false
  answer_of-not_fresh none = refl
  answer_of-not_fresh (some response) = refl

  not_fresh :
      (k : RequestKey) (h : String) (t : KeyTable Response) (r : KeyRow Response)
      → is_fresh (start_with k h t (some r)).0 ≡ false
  not_fresh k h t r =
      if-both (λ (s : Started Response). is_fresh s ≡ false) (Text.◌==◌ r.request_hash h)
        (answer_of-not_fresh r.response) refl

  new_row : RequestKey → String → ℕ → KeyRow Response
  new_row k h id = record { id = id; request = k; request_hash = h; response = none }

  -- The row of the request that is made.
  begin-fresh :
      (k : RequestKey) (h : String) (t : KeyTable Response) (id : ℕ)
      → (begin_saas_idempotency k h t).0 ≡ fresh id
      → Holds k (begin_saas_idempotency k h t).1 (new_row k h id)
  unfolding begin_saas_idempotency new_row id_of
  begin-fresh k h t id e = started (row_of k t.rows) refl e
    where
      started :
          (o : Option (KeyRow Response))
          → row_of k t.rows ≡ o
          → (start_with k h t o).0 ≡ fresh id
          → Holds k (start_with k h t o).1 (new_row k h id)
      started none absent f =
          row_of-append_new k t.rows (new_row k h t.next_id) (is_same_refl k) absent
          ∙ ap (λ i. some (new_row k h i)) (ap id_of f)
      started (some r) present f = cc (not_fresh k h t r, ap is_fresh f)

  -- Once a request was begun and its response stored, whatever other requests and responses came in between
  -- and come later, the same key brings that response again, if the body's hash is the same, and is a
  -- conflict otherwise; and the table stays as it is.
  pub begin_saas_idempotency-replays :
      (k : RequestKey) (h h' : String) (t : KeyTable Response) (id : ℕ) (response : Response)
      (es later : List (RequestEvent Response))
      → (begin_saas_idempotency k h t).0 ≡ fresh id
      → All (IsOther id) es
      → let t' =
          table_after
            (complete_saas_idempotency id response
              (table_after (begin_saas_idempotency k h t).1 es))
            later in
        begin_saas_idempotency k h' t'
        ≡ ((if Text.◌==◌ h h' then replay response else idempotency_conflict), t')
  unfolding begin_saas_idempotency complete_saas_idempotency new_row
  begin_saas_idempotency-replays k h h' t id response es later e others =
      let begun =
        table_after-Holds k (begin_saas_idempotency k h t).1 (new_row k h id) es others
          (begin-fresh k h t id e) in
      let same : (id == id) ≡ true = ground arith in
      let answered = row_of-complete_rows k id response _ (new_row k h id) begun ∙ rw same refl in
      ap (start_with k h' _) (table_after-answered k _ (new_row k h id) response later answered)
