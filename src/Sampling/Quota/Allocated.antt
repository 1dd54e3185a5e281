-- ===== src/Sampling/Quota/Allocated.antt =====
-- The result of allocateQuotas (src/sampling/sample.js).
use one_gl.Prelude.{
  ℕ, zero, suc, ◌+◌, ◌≤◌, ◌<◌, ◌≡◌, refl, Bool, true, false, List, map, ◌==◌, if◌then◌else◌, min,
  String, sort_by, sum_by, arith, All, All-sort_by, sum_by-sort_by, ◌∙◌, sym, Bool-cases, inl, inr,
  subst,
}
use one_gl.Sampling.Quota.{
  Entry, Group, capacity, entry_for, behind, Round, grant_rounds, allocate_quotas,
}
use one_gl.Sampling.Quota.Shares.{
  quotas, openings, grant_round-Moves, grant_round-fills, IsBase, IsShare, grant_round-IsShare,
  IsBase-IsShare,
}
use one_gl.Sampling.Quota.Total.{base_bounds, entries-IsBase, grant_rounds-fills}

abbrev start : (String → String → Bool) → ℕ → List Group → Round
start locale_after target groups =
    let entries = map (entry_for target (sum_by capacity groups)) groups in
    record {
      assigned = quotas entries;
      entries = sort_by (behind locale_after) entries;
      progressed = true;
    }

abbrev Allocated : ℕ → List Group → List Entry → Type 0
Allocated target groups es =
    (quotas es ≡ target) × All (IsShare target (sum_by capacity groups) groups) es

-- The loop on sorted entries, with some fuel, meets the target by shares.
module _ (locale_after : String → String → Bool) (fuel target : ℕ) (groups : List Group)
    (fits : target ≤ sum_by capacity groups) (some_total : 0 < sum_by capacity groups) where
  start-Allocated :
      Allocated target groups
        (grant_rounds (suc fuel) target (start locale_after target groups)).entries
  start-Allocated =
      let total = sum_by capacity groups in
      let entries = map (entry_for target total) groups in
      let (low, high) = base_bounds target total fits some_total groups refl in
      let bases =
        All-sort_by (IsBase target total groups) (behind locale_after) entries
          (entries-IsBase target total fits some_total groups groups (λ g m. m)) in
      let sums = sum_by-sort_by (λ (e : Entry). e.quota) (behind locale_after) entries in
      let opens =
        sum_by-sort_by (λ (e : Entry). if e.room == 0 then 0 else 1) (behind locale_after)
          entries in
      let wide : target ≤ quotas entries + openings (start locale_after target groups).entries =
        omega (arith, high, opens) in
      elim (grant_rounds-fills fuel target (start locale_after target groups) refl low wide) [
        | inl (e, full) ↦
            subst (λ (r : Round). Allocated target groups r.entries) (sym e)
              (
                sums ∙ full,
                IsBase-IsShare target total groups (start locale_after target groups).entries bases,
              )
        | inr e ↦
            subst (λ (r : Round). Allocated target groups r.entries) (sym e)
              (
                omega (
                  arith,
                  (grant_round-Moves target (quotas entries) false
                      (start locale_after target groups).entries).given,
                  grant_round-fills target (quotas entries) false
                      (start locale_after target groups).entries low wide,
                  sums,
                ),
                grant_round-IsShare target total groups target (quotas entries) false
                    (start locale_after target groups).entries bases,
              )
      ]

filled :
    (locale_after : String → String → Bool) (fuel target : ℕ) (groups : List Group)
    → target ≤ sum_by capacity groups
    → 0 < sum_by capacity groups
    → 0 < fuel
    → Allocated target groups (grant_rounds fuel target (start locale_after target groups)).entries
filled la zero target groups fits pos h = elim h [ ]
filled la (suc fuel) target groups fits pos h = start-Allocated la fuel target groups fits pos

-- The quotas add up to the size of the sample, or to the number of prompts where there are fewer; and
-- each is its group's proportional share rounded down, or one more, and at most the group's size.
-- The fuel of the loop is enough for that.
pub allocate_quotas-IsShare :
    (locale_after : String → String → Bool) (size : ℕ) (groups : List Group)
    → let total = sum_by capacity groups in
      let es = allocate_quotas locale_after size groups in
      (quotas es ≡ min size total) × All (IsShare (min size total) total groups) es
unfolding allocate_quotas
allocate_quotas-IsShare la size groups = elim (Bool-cases (sum_by capacity groups == 0)) [
  | inl e ↦ rw e (ground arith, tt)
  | inr e ↦ elim (Bool-cases (size == 0)) [
    | inl f ↦ rw (e, f) (ground arith, tt)
    | inr f ↦
        rw (e, f)
          (filled la (min size (sum_by capacity groups)) (min size (sum_by capacity groups)) groups
            (omega arith) (ground arith) (ground arith))
  ]
]
