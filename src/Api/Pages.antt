-- ===== src/Api/Pages.antt =====
-- The pages of the collections (src/api/saas-pagination.js): `encodeCursor`, `decodeCursor`, `parseLimit`,
-- `pageEnvelope` and the routes' use of them. JSON and base64url are the platform's: `pack` makes a cursor
-- of its version, kind and id, and `unpack` reads one, with 0 for an id that is no natural number.
pub mod Walk
use one_gl.Prelude.{
  ℕ, zero, suc, ◌+◌, ◌≤◌, Bool, true, false, ◌&&◌, ◌||◌, Option, none, some, List, [], ◌∷◌, ◌++◌,
  if◌then◌else◌, ltb, leb, ◌==◌, length, take, map, String, select,
}
use text.Mathlib.Text

pub data PageError : Type 0 where
  invalid_cursor invalid_request : PageError

pub data Checked {ℓ} (A : Type ℓ) : Type ℓ where
  ok : A → Checked A
  error : PageError → Checked A

abbrev pub check_cursor : String → Option (ℕ × (String × ℕ)) → Checked (Option ℕ)
check_cursor kind none = error invalid_cursor
check_cursor kind (some (v, (k, i))) =
    if v == 1 && Text.◌==◌ k kind && ltb 0 i then ok (some i) else error invalid_cursor

module _ {ℓ} {Cursor : Type ℓ} where
  abbrev pub encode_cursor : (ℕ → String → ℕ → Cursor) → String → ℕ → Cursor
  encode_cursor pack kind id = pack 1 kind id

  -- No cursor, or an empty one, is the start.
  unfoldable pub decode_cursor :
      (Cursor → Option (ℕ × (String × ℕ))) → Option Cursor → String → Checked (Option ℕ)
  decode_cursor unpack none kind = ok none
  decode_cursor unpack (some raw) kind = check_cursor kind (unpack raw)

-- What `Number` makes of the parameter; every number that is no natural number is `not_natural`.
pub data LimitText : Type 0 where
  absent not_natural : LimitText
  number : ℕ → LimitText

unfoldable pub parse_limit : LimitText → ℕ → ℕ → Checked ℕ
parse_limit absent fallback max_limit = ok fallback
parse_limit not_natural fallback max_limit = error invalid_request
parse_limit (number value) fallback max_limit =
    if ltb value 1 || ltb max_limit value then error invalid_request else ok value

-- `ORDER BY id DESC` or `ASC`.
pub data Order : Type 0 where
  newest_first oldest_first : Order

abbrev pub is_past : Order → ℕ → ℕ → Bool
is_past newest_first cursor id = ltb id cursor
is_past oldest_first cursor id = ltb cursor id

abbrev pub is_after : Order → Option ℕ → ℕ → Bool
is_after order none id = true
is_after order (some cursor) id = is_past order cursor id

pub record Envelope {ℓ κ} (Item : Type ℓ) (Cursor : Type κ) : Type (ℓ ⊔ κ) where
  pub data_items : List Item
  pub has_more : Bool
  pub next_cursor : Option Cursor

-- The id of the last row.
abbrev pub last_id {ℓ} : {A : Type ℓ} → (A → ℕ) → List A → Option ℕ
last_id id [] = none
last_id id (r ∷ []) = some (id r)
last_id id (r ∷ s ∷ rs) = last_id id (s ∷ rs)

module _ {ℓ} {Row : Type ℓ} (id : Row → ℕ) where
  -- The statement of a route: the rows that the tenant sees, behind the cursor, in the order of the table
  -- that is given.
  unfoldable pub select_rows : Order → (Row → Bool) → Option ℕ → ℕ → List Row → List Row
  unfolding select
  select_rows order is_visible cursor n rows =
      take n (select (λ r. is_visible r && is_after order cursor (id r)) rows)

module _ {ℓ κ} {Row : Type ℓ} {Cursor : Type κ} (id : Row → ℕ)
    (pack : ℕ → String → ℕ → Cursor) where
  -- The rows are one more than the limit where there are more.
  unfoldable pub page_envelope :
      {Item : Type ℓ} → (Row → Item) → List Row → ℕ → String → Envelope Item Cursor
  page_envelope item rows limit kind =
      let has_more = ltb limit (length rows) in
      let visible_rows = take limit rows in
      record {
        data_items = map item visible_rows;
        has_more = has_more;
        next_cursor =
            if has_more
            then elim (last_id id visible_rows) [
              | none ↦ none
              | some i ↦ some (encode_cursor pack kind i)
            ]
            else none;
      }

  abbrev pub page_at :
      {Item : Type ℓ}
      → Order
      → String
      → (Row → Bool)
      → (Row → Item)
      → List Row
      → ℕ
      → Checked (Option ℕ)
      → Checked (Envelope Item Cursor)
  page_at order kind is_visible item rows limit (ok cursor) =
      ok (page_envelope item (select_rows id order is_visible cursor (suc limit) rows) limit kind)
  page_at order kind is_visible item rows limit (error e) = error e

  abbrev pub page_with :
      {Item : Type ℓ}
      → Order
      → String
      → (Row → Bool)
      → (Row → Item)
      → List Row
      → Checked ℕ
      → Checked (Option ℕ)
      → Checked (Envelope Item Cursor)
  page_with order kind is_visible item rows (error e) cursor = error e
  page_with order kind is_visible item rows (ok limit) cursor =
      page_at order kind is_visible item rows limit cursor

  -- A route: the limit is read before the cursor.
  unfoldable pub handle_page :
      {Item : Type ℓ}
      → (Cursor → Option (ℕ × (String × ℕ)))
      → Order
      → String
      → (Row → Bool)
      → (Row → Item)
      → List Row
      → LimitText
      → Option Cursor
      → Checked (Envelope Item Cursor)
  unfolding decode_cursor parse_limit page_envelope select_rows
  handle_page unpack order kind is_visible item rows limit cursor =
      page_with order kind is_visible item rows (parse_limit limit 100 500)
        (decode_cursor unpack cursor kind)
