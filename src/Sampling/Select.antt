-- ===== src/Sampling/Select.antt =====
-- The draw of src/sampling/sample.js. The order of the locale (`localeCompare`) is a parameter: `after`
-- says that a text belongs strictly behind another.
pub mod Partition
use one_gl.Prelude.{
  ℕ, zero, suc, ◌+◌, ◌%◌, Bool, true, false, List, [], ◌∷◌, ◌++◌, map, Option, none, some, min,
  length, take, get_elem?, if◌then◌else◌, ltb, ◌==◌, String, sort_by,
}
use one_gl.Sampling.Random.{Generator, create_seeded_random, shuffle}
use one_gl.Sampling.Quota.{Entry, allocate_quotas, quota_of}
use text.Mathlib.Text.{◌==◌ as str_eq}

pub record Prompt : Type 0 where
  pub id : ℕ
  pub text : String
  pub category : Option String

abbrev pub uncategorized : String
uncategorized = "uncategorized"

-- `category || UNCATEGORIZED`: null and the empty text are falsy.
abbrev pub key_of : Option String → String
key_of none = uncategorized
key_of (some c) = if str_eq c "" then uncategorized else c

abbrev pub group_key : Prompt → String
group_key p = key_of p.category

-- `String(category ?? "")`
abbrev pub category_text : Option String → String
category_text none = ""
category_text (some c) = c

-- The comparator of `canonicalOrder`: by text, category and id.
unfoldable pub canonical_after : (String → String → Bool) → Prompt → Prompt → Bool
canonical_after after a b =
    if after a.text b.text
    then true
    else if after b.text a.text
    then false
    else if after (category_text a.category) (category_text b.category)
    then true
    else if after (category_text b.category) (category_text a.category)
    then false
    else ltb b.id a.id

unfoldable pub canonical_order : (String → String → Bool) → List Prompt → List Prompt
unfolding canonical_after
canonical_order after prompts = sort_by (canonical_after after) prompts

-- The groups of a map, in the order in which their keys came up.
abbrev pub Groups : Type 0
Groups = List (String × List Prompt)

unfoldable pub add_to_group : String → Prompt → Groups → Groups
add_to_group k p [] = (k, p ∷ []) ∷ []
add_to_group k p ((j, ps) ∷ gs) =
    if str_eq j k then (j, ps ++ p ∷ []) ∷ gs else (j, ps) ∷ add_to_group k p gs

unfoldable pub group_all : Groups → List Prompt → Groups
unfolding add_to_group
group_all gs [] = gs
group_all gs (p ∷ ps) = group_all (add_to_group (group_key p) p gs) ps

abbrev pub key_after : (String → String → Bool) → String × List Prompt → String × List Prompt → Bool
key_after after a b = after a.0 b.0

unfoldable pub group_by_category : (String → String → Bool) → List Prompt → Groups
unfolding group_all
group_by_category after prompts = sort_by (key_after after) (group_all [] prompts)

abbrev pub sizes : Groups → List (String × ℕ)
sizes gs = map (λ g. (g.0, length g.1)) gs

abbrev pub labelled : String → Prompt → Prompt
labelled c p = record p { category = some c }

-- The loop over the groups, each shuffled and cut to its quota.
unfoldable pub draw_groups :
    (ℕ → List ℕ) → List Entry → Groups → Generator → List Prompt × Generator
unfolding shuffle quota_of
draw_groups digest quotas [] g = ([], g)
draw_groups digest quotas ((c, items) ∷ gs) g =
    let n = quota_of c quotas in
    let (mixed, g') = shuffle digest items g in
    let drawn = draw_groups digest quotas gs g' in
    let passed = draw_groups digest quotas gs g in
    if n == 0 then passed else (map (labelled c) (take n mixed) ++ drawn.0, drawn.1)

unfoldable pub select_stratified :
    (String → String → Bool) → (ℕ → List ℕ) → ℕ → List Prompt → List Prompt
unfolding group_by_category allocate_quotas draw_groups canonical_order create_seeded_random
select_stratified after digest size prompts =
    let groups = group_by_category after (canonical_order after prompts) in
    (draw_groups digest (allocate_quotas after size (sizes groups)) groups create_seeded_random).0

unfoldable pub select_random :
    (String → String → Bool) → (ℕ → List ℕ) → ℕ → List Prompt → List Prompt
unfolding shuffle canonical_order create_seeded_random
select_random after digest size prompts =
    let pool = canonical_order after prompts in
    map (λ p. labelled (group_key p) p)
      (take (min size (length pool)) (shuffle digest pool create_seeded_random).0)

unfoldable pub select_prompts :
    (String → String → Bool) → (ℕ → List ℕ) → Bool → ℕ → List Prompt → List Prompt
unfolding select_stratified select_random
select_prompts after digest stratified size prompts =
    if stratified
    then select_stratified after digest size prompts
    else select_random after digest size prompts
