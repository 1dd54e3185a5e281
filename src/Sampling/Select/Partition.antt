-- ===== src/Sampling/Select/Partition.antt =====
-- A sample of src/sampling/sample.js is taken from the pool: every prompt at most as often as it is
-- there, under its category.
use mathlib.Core.List.{
  Perm, Permᴰ, Perm-prop, perm_middle, perm_append_comm, map-append, append_assoc, append-nil,
}
use mathlib.Core.List.Perm
use mathlib.Core.Path.{subst₂}
use mathlib.Core.Logic.{∥∥₁_elim}
use one_gl.Prelude.{
  ℕ, Bool, true, false, List, [], ◌∷◌, ◌++◌, map, min, length, take, drop, take-append-drop,
  if◌then◌else◌, ◌==◌, String, sort_by-perm, subst, Bool-cases, inl, inr, eq_iff,
}
use one_gl.Sampling.Random.{Generator, create_seeded_random, shuffle}
use one_gl.Sampling.Random.Shuffle.{shuffle-perm}
use one_gl.Sampling.Quota.{Entry, allocate_quotas, quota_of}
use one_gl.Sampling.Select.{
  Prompt, group_key, canonical_after, canonical_order, Groups, add_to_group, group_all, key_after,
  group_by_category, sizes, labelled, draw_groups, select_stratified, select_random, select_prompts,
}
use text.Mathlib.Text.{◌==◌ as str_eq}

abbrev pub label : Prompt → Prompt
label p = labelled (group_key p) p

-- The prompts of all groups, under the keys of their groups.
abbrev flat : Groups → List Prompt
flat [] = []
flat ((c, items) ∷ gs) = map (labelled c) items ++ flat gs

add_to_group-perm :
    (k : String) (p : Prompt) (gs : Groups)
    → Perm (flat (add_to_group k p gs)) (labelled k p ∷ flat gs)
unfolding add_to_group
add_to_group-perm k p [] = Perm.refl (labelled k p ∷ [])
add_to_group-perm k p ((j, ps) ∷ gs) = elim (Bool-cases (str_eq j k)) [
  | inl e ↦
      rw (e, (eq_iff j k).0 e, map-append, append_assoc)
        (perm_middle (map (labelled k) ps) (flat gs))
  | inr e ↦ rw e (
      Perm.trans (Perm.append_left (map (labelled j) ps) (add_to_group-perm k p gs))
        (perm_middle (map (labelled j) ps) (flat gs)))
]

group_all-perm :
    (gs : Groups) (ps : List Prompt) → Perm (flat (group_all gs ps)) (flat gs ++ map label ps)
unfolding group_all
group_all-perm gs [] = rw append-nil (Perm.refl (flat gs))
group_all-perm gs (p ∷ ps) = Perm.trans (group_all-perm (add_to_group (group_key p) p gs) ps) (
    Perm.trans (Perm.append_right (map label ps) (add_to_group-perm (group_key p) p gs))
      (Perm.symm (perm_middle (flat gs) (map label ps))))

exchanged : (xs ys zs : List Prompt) → Perm (xs ++ (ys ++ zs)) (ys ++ (xs ++ zs))
exchanged xs ys zs =
    rw (← append_assoc xs ys zs, ← append_assoc ys xs zs)
      (Perm.append_right zs (perm_append_comm xs ys))

regrouped : (t d u l : List Prompt) → Perm ((t ++ d) ++ (u ++ l)) ((t ++ u) ++ (d ++ l))
regrouped t d u l =
    rw (append_assoc t d (u ++ l), append_assoc t u (d ++ l)) (Perm.append_left t (exchanged d u l))

-- The two parts of a shuffled list, relabelled.
cut_shuffle-perm :
    (digest : ℕ → List ℕ) (n : ℕ) (f : Prompt → Prompt) (items : List Prompt) (g : Generator)
    → Perm
        (map f (take n (shuffle digest items g).0) ++ map f (drop n (shuffle digest items g).0))
        (map f items)
cut_shuffle-perm digest n f items g =
    rw
      (
        ← map-append f (take n (shuffle digest items g).0) (drop n (shuffle digest items g).0),
        take-append-drop n (shuffle digest items g).0,
      )
      (Perm.map f (shuffle-perm digest items g))

flat-permᴰ : {gs hs : Groups} → Permᴰ gs hs → Perm (flat gs) (flat hs)
flat-permᴰ Permᴰ.nil = Perm.refl []
flat-permᴰ (Permᴰ.cons {a = a} {l₁ = l} {l₂ = m} e p) =
    subst (λ x. Perm (flat (a ∷ l)) (flat (x ∷ m))) e
      (Perm.append_left (map (labelled a.0) a.1) (flat-permᴰ p))
flat-permᴰ (Permᴰ.swap {a = a} {b = b} {l = l} e f) =
    subst₂ (λ x y. Perm (flat (a ∷ b ∷ l)) (flat (y ∷ x ∷ l))) e f
      (exchanged (map (labelled a.0) a.1) (map (labelled b.0) b.1) (flat l))
flat-permᴰ (Permᴰ.trans p q) = Perm.trans (flat-permᴰ p) (flat-permᴰ q)

flat-perm : {gs hs : Groups} → Perm gs hs → Perm (flat gs) (flat hs)
flat-perm p = ∥∥₁_elim p Perm-prop flat-permᴰ

-- What the draw leaves behind, from the quotas and the state of the generator.
left_behind : (ℕ → List ℕ) → List Entry → Groups → Generator → List Prompt
left_behind digest quotas [] g = []
left_behind digest quotas ((c, items) ∷ gs) g =
    let n = quota_of c quotas in
    let (mixed, g') = shuffle digest items g in
    let drawn = left_behind digest quotas gs g' in
    let passed = left_behind digest quotas gs g in
    if n == 0 then map (labelled c) items ++ passed else map (labelled c) (drop n mixed) ++ drawn

draw_groups-perm :
    (digest : ℕ → List ℕ) (quotas : List Entry) (gs : Groups) (g : Generator)
    → Perm ((draw_groups digest quotas gs g).0 ++ left_behind digest quotas gs g) (flat gs)
unfolding draw_groups left_behind
draw_groups-perm digest quotas [] g = Perm.refl []
draw_groups-perm digest quotas ((c, items) ∷ gs) g = elim (Bool-cases (quota_of c quotas == 0)) [
  | inl e ↦ rw e (
      Perm.trans
        (exchanged (draw_groups digest quotas gs g).0 (map (labelled c) items)
          (left_behind digest quotas gs g))
        (Perm.append_left (map (labelled c) items) (draw_groups-perm digest quotas gs g)))
  | inr e ↦ rw e (
      let mixed = (shuffle digest items g).0 in
      let g' = (shuffle digest items g).1 in
      Perm.trans
        (regrouped (map (labelled c) (take (quota_of c quotas) mixed))
          (draw_groups digest quotas gs g').0 (map (labelled c) (drop (quota_of c quotas) mixed))
          (left_behind digest quotas gs g'))
        (Perm.append (cut_shuffle-perm digest (quota_of c quotas) (labelled c) items g)
          (draw_groups-perm digest quotas gs g')))
]

-- A sample of either kind together with some further prompts makes up the pool, each prompt under
-- its own category: nothing is drawn twice, and nothing comes from elsewhere.
pub select_prompts-perm :
    (after : String → String → Bool) (digest : ℕ → List ℕ) (stratified : Bool) (size : ℕ)
    → (prompts : List Prompt)
    → (rest : List Prompt) × Perm
        (select_prompts after digest stratified size prompts ++ rest)
        (map label prompts)
unfolding select_prompts select_stratified select_random group_by_category canonical_order
select_prompts-perm after digest true size prompts =
    let pool = canonical_order after prompts in
    let groups = group_by_category after pool in
    let quotas = allocate_quotas after size (sizes groups) in
    (
      left_behind digest quotas groups create_seeded_random,
      Perm.trans (draw_groups-perm digest quotas groups create_seeded_random) (
          Perm.trans (flat-perm (sort_by-perm (key_after after) (group_all [] pool))) (
            Perm.trans (group_all-perm [] pool)
              (Perm.map label (sort_by-perm (canonical_after after) prompts)))),
    )
select_prompts-perm after digest false size prompts =
    let pool = canonical_order after prompts in
    (
      map label (drop (min size (length pool)) (shuffle digest pool create_seeded_random).0),
      Perm.trans (cut_shuffle-perm digest (min size (length pool)) label pool create_seeded_random)
          (Perm.map label (sort_by-perm (canonical_after after) prompts)),
    )
