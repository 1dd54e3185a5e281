-- ===== src/Sampling/Quota/Total.antt =====
-- The quotas of src/sampling/sample.js add up to the size of the sample.
use mathlib.Core.List.{Mem, mem-cons_self, mem-cons_of_mem}
use native.Mathlib.Nat.{div-add-mod', mod-lt, le_of_mul-le-mul_right}
use one_gl.Prelude.{
  ℕ, zero, suc, ◌+◌, ◌*◌, ◌/◌, ◌%◌, ◌≤◌, ◌<◌, ◌≡◌, refl, true, false, List, [], ◌∷◌, map, ltb, ◌==◌,
  if◌then◌else◌, sum_by, arith, All, ◌∙◌, ap, Bool-cases, ltb→lt, inl, inr, ◌⊎◌,
}
use one_gl.Sampling.Quota.{Group, capacity, entry_for, Round, grant_round, grant_rounds}
use one_gl.Sampling.Quota.Shares.{
  quotas, openings, grant_round-fills, IsBase, share-le, remainder_room,
}

module _ (target total : ℕ) (fits : target ≤ total) (some_total : 0 < total) where
  entry_for-quota : (g : Group) → (entry_for target total g).quota ≡ target * g.1 / total
  unfolding entry_for
  entry_for-quota (c, size) = ground (arith, share-le target total size)

  entry_for-IsBase :
      (groups : List Group) (g : Group)
      → Mem g groups
      → IsBase target total groups (entry_for target total g)
  unfolding entry_for
  entry_for-IsBase groups (c, size) m = (
    size,
    m,
    ground (arith, share-le target total size),
    ground (arith, share-le target total size),
  )

  pub entries-IsBase :
      (groups gs : List Group)
      → ((g : Group) → Mem g gs → Mem g groups)
      → All (IsBase target total groups) (map (entry_for target total) gs)
  entries-IsBase groups [] sub = tt
  entries-IsBase groups (g ∷ gs) sub = (
    entry_for-IsBase groups g (sub g mem-cons_self),
    entries-IsBase groups gs (λ h m. sub h (mem-cons_of_mem g m)),
  )

  abbrev remainders : List Group → ℕ
  remainders = sum_by (λ g. target * g.1 % total)

  -- The shares and what they leave make up the target's part of the capacity.
  quotas-remainders :
      (gs : List Group)
      → quotas (map (entry_for target total) gs) * total + remainders gs
        ≡ target * sum_by capacity gs
  quotas-remainders [] = omega arith
  quotas-remainders (g ∷ gs) =
      let d = div-add-mod' (target * g.1) total in
      let q = entry_for-quota g in
      let ih = quotas-remainders gs in omega (arith, d, ap (λ (t : ℕ). t * total) q, ih)

  -- Where a group has a remainder its entry has room.
  remainder-le-room :
      (g : Group)
      → target * g.1 % total ≤ (if (entry_for target total g).room == 0 then 0 else 1) * total
  unfolding entry_for
  remainder-le-room (c, size) = ground (
    arith,
    share-le target total size,
    remainder_room target total size,
    mod-lt (target * size) some_total,
  )

  remainders-le :
      (gs : List Group) → remainders gs ≤ openings (map (entry_for target total) gs) * total
  remainders-le [] = omega arith
  remainders-le (g ∷ gs) = omega (arith, remainder-le-room g, remainders-le gs)

grant_rounds_done :
    (fuel target : ℕ) (r : Round) → r.assigned ≡ target → grant_rounds fuel target r ≡ r
unfolding grant_rounds
grant_rounds_done zero target r e = refl
grant_rounds_done (suc fuel) target r e = elim (Bool-cases (ltb r.assigned target)) [
  | inl h ↦ absurd (omega (arith, ltb→lt r.assigned target h))
  | inr h ↦ rw h refl
]

-- With fuel for one pass the loop ends at the target: it is the pass itself, or nothing.
pub grant_rounds-fills :
    (fuel target : ℕ) (r : Round)
    → r.progressed ≡ true
    → r.assigned ≤ target
    → target ≤ r.assigned + openings r.entries
    → (grant_rounds (suc fuel) target r ≡ r) × (r.assigned ≡ target)
      ⊎ (grant_rounds (suc fuel) target r ≡ grant_round target r.assigned false r.entries)
unfolding grant_rounds
grant_rounds-fills fuel target r p low high = elim (Bool-cases (ltb r.assigned target)) [
  | inl h ↦ inr (
      rw (h, p)
        (grant_rounds_done fuel target (grant_round target r.assigned false r.entries)
          (grant_round-fills target r.assigned false r.entries low high)))
  | inr h ↦ inl (rw h refl, ground arith)
]

module _ (target total : ℕ) (fits : target ≤ total) (some_total : 0 < total) where
  -- The rounded-down shares do not pass the target, and the entries with room can make up the rest.
  pub base_bounds :
      (gs : List Group)
      → sum_by capacity gs ≡ total
      → (quotas (map (entry_for target total) gs) ≤ target)
        × (target
            ≤ quotas (map (entry_for target total) gs) + openings (map (entry_for target total) gs))
  base_bounds gs e =
      let eq : quotas (map (entry_for target total) gs) * total
            + remainders target total fits some_total gs
          ≡ target * total =
        quotas-remainders target total fits some_total gs ∙ ap (λ (t : ℕ). target * t) e in
      let le = remainders-le target total fits some_total gs in
      (
        le_of_mul-le-mul_right {k = total} (omega (arith, eq)) some_total,
        le_of_mul-le-mul_right {k = total} (omega (arith, eq, le)) some_total,
      )
