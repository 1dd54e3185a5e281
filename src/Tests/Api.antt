-- ===== src/Tests/Api.antt =====
-- Pages of a collection of four rows, and requests that come twice. A cursor is the triple itself.
use text.Mathlib.Text
use one_gl.Prelude.{
  ℕ, ◌+◌, ◌≤◌, ◌≡◌, refl, Bool, true, ltb, Option, none, some, List, [], ◌∷◌, arith, String, map,
  if◌then◌else◌, select,
}
use one_gl.Api.Pages.{newest_first, number, handle_page}
use one_gl.Api.Pages.Walk.{walk, walk-handle_page}
use one_gl.Api.Idempotency.{
  RequestKey, KeyTable, RequestEvent, begins, completes, replay, idempotency_conflict, table_after,
  times_made, begin_saas_idempotency, complete_saas_idempotency,
}
use one_gl.Api.Idempotency.Once.{held, times_made-le_one}
use one_gl.Api.Idempotency.Replay.{begin_saas_idempotency-replays}

abbrev Cursor : Type 0
Cursor = ℕ × (String × ℕ)

abbrev pack : ℕ → String → ℕ → Cursor
pack v kind i = (v, (kind, i))

abbrev unpack : Cursor → Option (ℕ × (String × ℕ))
unpack c = some c

abbrev row_id : ℕ → ℕ
row_id r = r

abbrev below_nine : ℕ → Bool
below_nine r = ltb r 9

abbrev table_rows : List ℕ
table_rows = 12 ∷ 8 ∷ 5 ∷ 3 ∷ []

walk-handle_page_example :
    walk
      (handle_page row_id pack unpack newest_first "tasks" below_nine row_id table_rows (number 2))
      5
      none
    ≡ (map row_id (select below_nine table_rows), true)
walk-handle_page_example =
    walk-handle_page row_id pack unpack newest_first "tasks" below_nine row_id table_rows 2
      (λ i. refl) (omega arith) (omega arith)
      ((refl, (refl, (refl, tt))), ((refl, (refl, tt)), ((refl, tt), (tt, tt))))
      (omega arith, (omega arith, (omega arith, (omega arith, tt))))

abbrev request_key : RequestKey
request_key = record { tenant_id = 1; operation = "POST /v1/tasks"; key = "k-1" }

abbrev other_key : RequestKey
other_key = record { tenant_id = 1; operation = "POST /v1/tasks"; key = "k-2" }

abbrev key_table : KeyTable ℕ
key_table = record { rows = []; next_id = 1 }

abbrev requests : List (RequestEvent ℕ)
requests =
    begins request_key "h" ∷ begins request_key "h" ∷ completes 1 201 ∷ begins request_key "h" ∷ []

times_made-le_one_example :
    times_made request_key key_table requests + held request_key key_table ≤ 1
times_made-le_one_example = times_made-le_one request_key key_table requests

begin_saas_idempotency-replays_example :
    let t' =
      table_after
        (complete_saas_idempotency 1 201 (
          table_after
            (begin_saas_idempotency request_key "h" key_table).1
            (begins other_key "g" ∷ [])))
        (completes 1 500 ∷ []) in
    begin_saas_idempotency request_key "h" t'
    ≡ ((if Text.◌==◌ "h" "h" then replay 201 else idempotency_conflict), t')
unfolding begin_saas_idempotency
begin_saas_idempotency-replays_example =
    begin_saas_idempotency-replays request_key "h" "h" key_table 1 201 (begins other_key "g" ∷ [])
      (completes 1 500 ∷ []) refl (tt, tt)
