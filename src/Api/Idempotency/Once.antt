-- ===== src/Api/Idempotency/Once.antt =====
-- A request with a key is made at most once (src/api/idempotency.js).
use text.Mathlib.Text
use one_gl.Prelude.{
  ℕ, ◌+◌, ◌≤◌, ◌≡◌, inl, inr, refl, Bool, true, false, ◌&&◌, Option, none, some, List, [], ◌∷◌,
  ◌++◌, if◌then◌else◌, ◌==◌, String, arith, Bool-cases, eq_iff,
}
use one_gl.Api.Idempotency.{
  RequestKey, is_same, KeyRow, KeyTable, RequestEvent, begins, completes, row_of, start_with,
  begin_saas_idempotency, complete_rows, complete_saas_idempotency, is_fresh, times_made,
}

is_same-eq : (a b : RequestKey) → is_same a b ≡ true → a ≡ b
unfolding is_same
is_same-eq a b h =
    let (t, rest) = both (a.tenant_id == b.tenant_id) _ h in
    let (o, k) = both (Text.◌==◌ a.operation b.operation) _ rest in
    joined (ground (arith, t)) ((eq_iff a.operation b.operation).0 o) ((eq_iff a.key b.key).0 k)
  where
    both : (p q : Bool) → p && q ≡ true → (p ≡ true) × (q ≡ true)
    both true q e = (refl, e)
    both false q e = cc

    joined : a.tenant_id ≡ b.tenant_id → a.operation ≡ b.operation → a.key ≡ b.key → a ≡ b
    joined t o k = λ i. record { tenant_id = t i; operation = o i; key = k i }

module _ {ℓ} {Response : Type ℓ} where
  abbrev pub is_held : Option (KeyRow Response) → ℕ
  is_held none = 0
  is_held (some r) = 1

  pub held : RequestKey → KeyTable Response → ℕ
  held k t = is_held (row_of k t.rows)

  row_of-append_held :
      (k : RequestKey) (rs : List (KeyRow Response)) (r : KeyRow Response)
      → is_held (row_of k (rs ++ r ∷ []))
        ≡ (if is_same k r.request then 1 else is_held (row_of k rs))
  unfolding row_of
  row_of-append_held k [] r = ground arith
  row_of-append_held k (s ∷ rs) r = ground (arith, row_of-append_held k rs r)

  row_of-complete_rows_held :
      (k : RequestKey) (id : ℕ) (response : Response) (rs : List (KeyRow Response))
      → is_held (row_of k (complete_rows id response rs)) ≡ is_held (row_of k rs)
  unfolding row_of complete_rows
  row_of-complete_rows_held k id response [] = refl
  row_of-complete_rows_held k id response (r ∷ rs) = elim (Bool-cases (r.id == id)) [
    | inl e ↦ rw e (ground (arith, row_of-complete_rows_held k id response rs))
    | inr e ↦ rw e (ground (arith, row_of-complete_rows_held k id response rs))
  ]

  is_held-le : (o : Option (KeyRow Response)) → is_held o ≤ 1
  is_held-le none = omega arith
  is_held-le (some r) = omega arith

  -- What a start counts for, and what is held afterwards.
  start_with-held :
      (k k' : RequestKey) (h : String) (t : KeyTable Response) (o : Option (KeyRow Response))
      → row_of k' t.rows ≡ o
      → let (started, t') = start_with k' h t o in
        (if is_same k k' && is_fresh started then 1 else 0) + held k t ≤ held k t'
  unfolding held
  start_with-held k k' h t (some r) e = ground arith
  start_with-held k k' h t none e =
      let added =
        row_of-append_held k t.rows
          (record { id = t.next_id; request = k'; request_hash = h; response = none }) in
      elim (Bool-cases (is_same k k')) [
        | inl same ↦
            let none_yet : is_held (row_of k t.rows) ≡ 0 = rw (is_same-eq k k' same, e) refl in
            let added' = rw same at added in rw same (omega (arith, none_yet, added'))
        | inr other ↦ let added' = rw other at added in rw other (omega (arith, added'))
      ]

  -- However often the requests with one key come, in any order with other requests and with the responses,
  -- from one server or several: the request is made at most once.
  pub times_made-le_one :
      (k : RequestKey) (t : KeyTable Response) (es : List (RequestEvent Response))
      → times_made k t es + held k t ≤ 1
  unfolding times_made begin_saas_idempotency complete_saas_idempotency held
  times_made-le_one k t [] = omega (arith, is_held-le (row_of k t.rows))
  times_made-le_one k t (begins k' h ∷ es) = omega (
    arith,
    start_with-held k k' h t (row_of k' t.rows) refl,
    times_made-le_one k (begin_saas_idempotency k' h t).1 es,
  )
  times_made-le_one k t (completes id response ∷ es) = omega (
    arith,
    row_of-complete_rows_held k id response t.rows,
    times_made-le_one k (complete_saas_idempotency id response t) es,
  )
