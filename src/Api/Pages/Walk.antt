-- ===== src/Api/Pages/Walk.antt =====
-- A client that follows the cursors of src/api/saas-pagination.js to the end.
use one_gl.Prelude.{
  ℕ, zero, suc, ◌+◌, ◌≤◌, ◌<◌, ◌≡◌, ◌∙◌, refl, sym, ap, subst, Bool, true, false, ◌&&◌, Option,
  none, some, List, [], ◌∷◌, ◌++◌, if◌then◌else◌, ltb, length, take, drop, map, String, All, arith,
  Bool-cases, inl, inr, if-both, length-take, length-drop, take-append-drop, select, All-select,
  length-select, take-all,
}
use mathlib.Core.List.{append_assoc, map-append}
use text.Mathlib.TextPositions.{eq_refl}
use one_gl.Api.Pages.{
  Checked, ok, error, number, Order, newest_first, oldest_first, is_past, is_after, Envelope,
  last_id, encode_cursor, decode_cursor, parse_limit, page_envelope, select_rows, handle_page,
}

abbrev pub before {ℓ} : {Item : Type ℓ} → List Item → List Item × Bool → List Item × Bool
before items (rest, done) = (items ++ rest, done)

module _ {ℓ κ} {Item : Type ℓ} {Cursor : Type κ} where
  abbrev pub follow :
      (Option Cursor → List Item × Bool) → Checked (Envelope Item Cursor) → List Item × Bool
  follow rest (error e) = ([], false)
  follow rest (ok page) =
      if page.has_more
      then before page.data_items (rest page.next_cursor)
      else (page.data_items, true)

  -- The items, and whether the client came to a page that says there is no more.
  unfoldable pub walk :
      (Option Cursor → Checked (Envelope Item Cursor)) → ℕ → Option Cursor → List Item × Bool
  walk handle zero cursor = ([], false)
  walk handle (suc n) cursor = follow (walk handle n) (handle cursor)

module _ {ℓ} {A : Type ℓ} where
  select-select :
      (p q : A → Bool) (xs : List A) → select (λ x. p x && q x) xs ≡ select q (select p xs)
  unfolding select
  select-select p q [] = refl
  select-select p q (x ∷ xs) = elim (Bool-cases (p x)) [
    | inl e ↦ rw (e, select-select p q xs) refl
    | inr e ↦ rw (e, select-select p q xs) refl
  ]

  select-All : (p : A → Bool) (xs : List A) → All (λ x. p x ≡ true) xs → select p xs ≡ xs
  unfolding select
  select-All p [] h = refl
  select-All p (x ∷ xs) h = rw (h.0, select-All p xs h.1) refl

  All-true : (xs : List A) → All (λ x. true ≡ true) xs
  All-true [] = tt
  All-true (x ∷ xs) = (refl, All-true xs)

  take-take : (n : ℕ) (xs : List A) → take n (take (suc n) xs) ≡ take n xs
  take-take zero xs = refl
  take-take (suc n) [] = refl
  take-take (suc n) (x ∷ xs) = ap (λ t. x ∷ t) (take-take n xs)

-- The rows in the order of the statement, with an index that no two rows share.
module _ {ℓ} {Row : Type ℓ} (id : Row → ℕ) (order : Order) where
  abbrev pub IsOrdered : List Row → Type 0
  IsOrdered [] = Unit
  IsOrdered (r ∷ rs) = All (λ s. is_past order (id r) (id s) ≡ true) rs × IsOrdered rs

  IsOrdered-select : (p : Row → Bool) (rs : List Row) → IsOrdered rs → IsOrdered (select p rs)
  unfolding select
  IsOrdered-select p [] h = tt
  IsOrdered-select p (r ∷ rs) h =
      if-both IsOrdered (p r)
        (All-select (λ s. is_past order (id r) (id s) ≡ true) p rs h.0, IsOrdered-select p rs h.1)
        (IsOrdered-select p rs h.1)

  is_past_refl : (o : Order) (i : ℕ) → is_past o i i ≡ false
  is_past_refl newest_first i = ground arith
  is_past_refl oldest_first i = ground arith

  is_past-asym : (o : Order) (i j : ℕ) → is_past o i j ≡ true → is_past o j i ≡ false
  is_past-asym newest_first i j h = ground arith
  is_past-asym oldest_first i j h = ground arith

  All-at :
      (P : Row → Type 0) (pre : List Row) (r : Row) (post : List Row)
      → All P (pre ++ r ∷ post)
      → P r
  All-at P [] r post h = h.0
  All-at P (p ∷ pre) r post h = All-at P pre r post h.1

  select-past :
      (pre : List Row) (r : Row) (post : List Row)
      → IsOrdered (pre ++ r ∷ post)
      → select (λ s. is_past order (id r) (id s)) (pre ++ r ∷ post) ≡ post
  unfolding select
  select-past [] r post h =
      rw (is_past_refl order (id r)) (select-All (λ s. is_past order (id r) (id s)) post h.0)
  select-past (p ∷ pre) r post h =
      rw
        (is_past-asym order (id p) (id r)
          (All-at (λ s. is_past order (id p) (id s) ≡ true) pre r post h.0))
        (select-past pre r post h.1)

  -- A full page ends in a row, and what follows it is what follows the page.
  record PageEnd (n : ℕ) (rs : List Row) : Type ℓ where
    last : Row
    pre : List Row
    whole : pre ++ last ∷ drop n rs ≡ rs
    last_is : last_id id (take n rs) ≡ some (id last)

  page_end : (n : ℕ) (rs : List Row) → n < length rs → 0 < n → PageEnd n rs
  page_end zero rs h k = absurd (omega arith)
  page_end (suc n) [] h k = absurd (omega arith)
  page_end (suc zero) (r ∷ rs) h k = record { last = r; pre = []; whole = refl; last_is = refl }
  page_end (suc (suc n)) (r ∷ []) h k = absurd (omega arith)
  page_end (suc (suc n)) (r ∷ s ∷ rs) h k =
      let rest = page_end (suc n) (s ∷ rs) (omega arith) (omega arith) in
      record {
        last = rest.last;
        pre = r ∷ rest.pre;
        whole = ap (λ t. r ∷ t) rest.whole;
        last_is = rest.last_is;
      }

module _ {ℓ κ} {Row Item : Type ℓ} {Cursor : Type κ} (id : Row → ℕ) (pack : ℕ → String → ℕ → Cursor)
    (unpack : Cursor → Option (ℕ × (String × ℕ))) (order : Order) (kind : String)
    (is_visible : Row → Bool) (item : Row → Item) (rows : List Row) (limit : ℕ) where
  all_rows : List Row
  all_rows = select is_visible rows

  Behind : Option ℕ → List Row → Type ℓ
  Behind c rest = select (λ r. is_visible r && is_after order c (id r)) rows ≡ rest

  -- The page at a cursor behind which some rows stand.
  page_of :
      (c : Option ℕ) (rest : List Row)
      → Behind c rest
      → page_envelope id pack item (select_rows id order is_visible c (suc limit) rows) limit kind
        ≡ record {
          data_items = map item (take limit rest);
          has_more = ltb limit (length rest);
          next_cursor =
              if ltb limit (length rest)
              then elim (last_id id (take limit rest)) [
                | none ↦ none
                | some i ↦ some (encode_cursor pack kind i)
              ]
              else none;
        }
  unfolding page_envelope select_rows Behind
  page_of c rest b = rw (b, take-take limit rest, more) refl
    where
      more : ltb limit (length (take (suc limit) rest)) ≡ ltb limit (length rest)
      more = ground (arith, length-take (suc limit) rest)

  step_of :
      (c : Option ℕ) (cursor : Option Cursor) (rest : List Row)
      → parse_limit (number limit) 100 500 ≡ ok limit
      → decode_cursor unpack cursor kind ≡ ok c
      → Behind c rest
      → handle_page id pack unpack order kind is_visible item rows (number limit) cursor
        ≡ ok (record {
          data_items = map item (take limit rest);
          has_more = ltb limit (length rest);
          next_cursor =
              if ltb limit (length rest)
              then elim (last_id id (take limit rest)) [
                | none ↦ none
                | some i ↦ some (encode_cursor pack kind i)
              ]
              else none;
        })
  unfolding handle_page
  step_of c cursor rest l d b = rw (l, d) (ap ok (page_of c rest b))

  module _ (readable : (i : ℕ) → unpack (pack 1 kind i) ≡ some (1, (kind, i)))
      (allowed : parse_limit (number limit) 100 500 ≡ ok limit) (some_rows : 0 < limit)
      (ordered : IsOrdered id order rows) (positive : All (λ r. 0 < id r) rows) where
    decode_next :
        (r : Row)
        → 0 < id r
        → decode_cursor unpack (some (pack 1 kind (id r))) kind ≡ ok (some (id r))
    unfolding decode_cursor
    decode_next r h = rw (readable (id r), eq_refl kind) (ground arith)

    Behind-last :
        (pre : List Row) (r : Row) (post : List Row)
        → pre ++ r ∷ post ≡ all_rows
        → Behind (some (id r)) post
    unfolding Behind all_rows
    Behind-last pre r post e =
        select-select is_visible (λ s. is_past order (id r) (id s)) rows
        ∙ ap (select (λ s. is_past order (id r) (id s))) (sym e)
        ∙ select-past id order pre r post
            (subst (IsOrdered id order) (sym e) (IsOrdered-select id order is_visible rows ordered))

    positive_at :
        (pre : List Row) (r : Row) (post : List Row) → pre ++ r ∷ post ≡ all_rows → 0 < id r
    unfolding all_rows
    positive_at pre r post e =
        All-at id order (λ s. 0 < id s) pre r post
          (subst (All (λ s. 0 < id s)) (sym e)
            (All-select (λ s. 0 < id s) is_visible rows positive))

    handle : Option Cursor → Checked (Envelope Item Cursor)
    handle = handle_page id pack unpack order kind is_visible item rows (number limit)

    walk_from :
        (n : ℕ) (c : Option ℕ) (cursor : Option Cursor) (pre rest : List Row)
        → decode_cursor unpack cursor kind ≡ ok c
        → Behind c rest
        → pre ++ rest ≡ all_rows
        → length rest < n
        → walk handle n cursor ≡ (map item rest, true)
    unfolding walk handle
    walk_from zero c cursor pre rest d b e h = absurd (omega arith)
    walk_from (suc n) c cursor pre rest d b e h = elim (Bool-cases (ltb limit (length rest))) [
      | inl more ↦
          let pe = page_end id order limit rest (ground arith) some_rows in
          let whole =
            append_assoc pre pe.pre (pe.last ∷ drop limit rest) ∙ ap (λ t. pre ++ t) pe.whole ∙ e in
          ap (follow (walk handle n)) (step_of c cursor rest allowed d b)
          ∙ rw (more, pe.last_is)
              (ap (before (map item (take limit rest))) (
                  walk_from n (some (id pe.last)) (some (pack 1 kind (id pe.last)))
                    (pre ++ pe.pre ++ pe.last ∷ []) (drop limit rest)
                    (decode_next pe.last
                      (positive_at (pre ++ pe.pre) pe.last (drop limit rest) whole))
                    (Behind-last (pre ++ pe.pre) pe.last (drop limit rest) whole)
                    (append_assoc (pre ++ pe.pre) (pe.last ∷ []) (drop limit rest) ∙ whole)
                    (ground (arith, length-drop limit rest)))
                ∙ ap (λ items. (items, true))
                    (sym (map-append item (take limit rest) (drop limit rest))
                      ∙ ap (map item) (take-append-drop limit rest)))
      | inr last ↦
          ap (follow (walk handle n)) (step_of c cursor rest allowed d b)
          ∙ rw last (ap (λ rs. (map item rs, true)) (take-all limit rest (ground arith)))
    ]

  -- A client that follows the cursors of a collection, with any limit from 1 to 500, comes to the page
  -- that says there is no more after at most as many pages as there are rows and one, and has then got
  -- every row that the tenant sees, each once, in the order of the collection: no row is lost or doubled
  -- where one page ends and the next begins. The ids are positive and in the order of the statement, and
  -- a cursor reads back as it was made.
  pub walk-handle_page :
      ((i : ℕ) → unpack (pack 1 kind i) ≡ some (1, (kind, i)))
      → 1 ≤ limit
      → limit ≤ 500
      → IsOrdered id order rows
      → All (λ r. 0 < id r) rows
      → walk
          (handle_page id pack unpack order kind is_visible item rows (number limit))
          (length rows + 1)
          none
        ≡ (map item (select is_visible rows), true)
  unfolding parse_limit decode_cursor handle all_rows Behind
  walk-handle_page readable low high ordered positive =
      walk_from readable (ground arith) (omega arith) ordered positive (length rows + 1) none none
        [] (select is_visible rows) refl start refl (omega (arith, length-select is_visible rows))
    where
      start : select (λ r. is_visible r && is_after order none (id r)) rows ≡ select is_visible rows
      start =
          select-select is_visible (λ r. true) rows
          ∙ select-All (λ r. true) (select is_visible rows) (All-true (select is_visible rows))
