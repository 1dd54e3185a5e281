-- ===== src/Sampling/Quota.antt =====
-- allocateQuotas of src/sampling/sample.js: the largest-remainder method. The source divides floats;
-- here the quotient and its remainder are exact. An entry carries its quota, which the source keeps
-- in a map under the entry's category.
pub mod Shares
pub mod Total
pub mod Allocated
use one_gl.Prelude.{
  ℕ, zero, suc, ◌+◌, ◌-◌, ◌*◌, ◌/◌, ◌%◌, ◌≤◌, Bool, true, false, ◌&&◌, List, [], ◌∷◌, map, ltb, leb,
  ◌==◌, if◌then◌else◌, min, String, sort_by, sum_by, Option, none, some,
}
use text.Mathlib.Text.{◌==◌ as str_eq}

pub record Entry : Type 0 where
  pub category : String
  pub quota : ℕ
  pub remainder : ℕ
  pub room : ℕ

-- A group's category and the number of its prompts.
abbrev pub Group : Type 0
Group = String × ℕ

abbrev pub capacity : Group → ℕ
capacity g = g.1

unfoldable pub entry_for : ℕ → ℕ → Group → Entry
entry_for target total (category, size) =
    let base = min (target * size / total) size in
    record {
      category = category;
      quota = base;
      remainder = target * size % total;
      room = size - base;
    }

-- The comparator: the larger remainder first, then the category in the order of the locale.
unfoldable pub behind : (String → String → Bool) → Entry → Entry → Bool
behind locale_after a b =
    if a.remainder == b.remainder
    then locale_after a.category b.category
    else ltb a.remainder b.remainder

pub record Round : Type 0 where
  pub assigned : ℕ
  pub entries : List Entry
  pub progressed : Bool

abbrev pub push_entry : Entry → Round → Round
push_entry e r = record r { entries = e ∷ r.entries }

-- One pass of the `for`: `break` once the target is met, `continue` where an entry has no room.
unfoldable pub grant_round : ℕ → ℕ → Bool → List Entry → Round
grant_round target assigned progressed [] = record {
  assigned = assigned;
  entries = [];
  progressed = progressed;
}
grant_round target assigned progressed (e ∷ es) =
    let skipped = push_entry e (grant_round target assigned progressed es) in
    let granted =
      push_entry (record e { quota = e.quota + 1; room = e.room - 1 })
        (grant_round target (assigned + 1) true es) in
    if leb target assigned
    then record { assigned = assigned; entries = e ∷ es; progressed = progressed }
    else if e.room == 0
    then skipped
    else granted

-- The `while`, with fuel.
unfoldable pub grant_rounds : ℕ → ℕ → Round → Round
unfolding grant_round
grant_rounds zero target r = r
grant_rounds (suc fuel) target r =
    let rest = grant_rounds fuel target (grant_round target r.assigned false r.entries) in
    if ltb r.assigned target && r.progressed then rest else r

unfoldable pub allocate_quotas : (String → String → Bool) → ℕ → List Group → List Entry
unfolding entry_for behind grant_rounds
allocate_quotas locale_after size groups =
    let total = sum_by capacity groups in
    let target = min size total in
    let entries = map (entry_for target total) groups in
    let start : Round = record {
      assigned = sum_by (λ e. e.quota) entries;
      entries = sort_by (behind locale_after) entries;
      progressed = true;
    } in
    if total == 0 then [] else if size == 0 then [] else (grant_rounds target target start).entries

-- `quotas.get(category) ?? 0`
unfoldable pub quota_of : String → List Entry → ℕ
quota_of c [] = 0
quota_of c (e ∷ es) = if str_eq e.category c then e.quota else quota_of c es
