-- ===== src/Sampling/Quota/Shares.antt =====
-- What allocateQuotas of src/sampling/sample.js hands out.
use mathlib.Core.List.{Mem}
use native.Mathlib.Nat.{div-le_of_le-mul, div-add-mod'}
use one_gl.Prelude.{
  ℕ, ◌+◌, ◌-◌, ◌*◌, ◌/◌, ◌%◌, ◌≤◌, ◌<◌, ◌≡◌, Bool, true, List, [], ◌∷◌, leb, ◌==◌, if◌then◌else◌,
  sum_by, arith, All, Bool-cases, inl, inr, if-both, subst, sym,
}
use one_gl.Sampling.Quota.{Entry, Group, Round, push_entry, grant_round}

abbrev pub quotas : List Entry → ℕ
quotas = sum_by (λ e. e.quota)

abbrev pub rooms : List Entry → ℕ
rooms = sum_by (λ e. e.room)

-- A pass moves what it assigns from the rooms to the quotas, and does not pass the target.
pub record Moves (target assigned : ℕ) (es : List Entry) (r : Round) : Type 0 where
  pub given : quotas r.entries + assigned ≡ quotas es + r.assigned
  pub taken : rooms r.entries + r.assigned ≡ rooms es + assigned
  pub grows : assigned ≤ r.assigned
  pub within : assigned ≤ target → r.assigned ≤ target

pub grant_round-Moves :
    (target assigned : ℕ) (p : Bool) (es : List Entry)
    → Moves target assigned es (grant_round target assigned p es)
unfolding grant_round
grant_round-Moves target assigned p [] = omega arith
grant_round-Moves target assigned p (e ∷ es) =
    ground (
      arith,
      grant_round-Moves target assigned p es,
      grant_round-Moves target (assigned + 1) true es,
    )

-- The entries that a pass can serve.
abbrev pub openings : List Entry → ℕ
openings = sum_by (λ e. if e.room == 0 then 0 else 1)

-- A pass over enough entries with room meets the target.
pub grant_round-fills :
    (target assigned : ℕ) (p : Bool) (es : List Entry)
    → assigned ≤ target
    → target ≤ assigned + openings es
    → (grant_round target assigned p es).assigned ≡ target
unfolding grant_round
grant_round-fills target assigned p [] h k = omega arith
grant_round-fills target assigned p (e ∷ es) h k =
    ground (
      arith,
      grant_round-fills target assigned p es,
      grant_round-fills target (assigned + 1) true es,
    )

-- An entry of a group of `size` prompts: its quota is the rounded-down share or one more, and leaves
-- room for what the group still has.
abbrev pub IsShare : ℕ → ℕ → List Group → Entry → Type 0
IsShare target total groups e =
    (size : ℕ) × Mem (e.category, size) groups
    × (target * size / total ≤ e.quota)
    × (e.quota ≤ target * size / total + 1)
    × (e.quota + e.room ≡ size)

abbrev pub IsBase : ℕ → ℕ → List Group → Entry → Type 0
IsBase target total groups e =
    (size : ℕ) × Mem (e.category, size) groups
    × (e.quota ≡ target * size / total)
    × (e.quota + e.room ≡ size)

module _ (target total : ℕ) (groups : List Group) where
  pub IsBase-IsShare :
      (es : List Entry) → All (IsBase target total groups) es → All (IsShare target total groups) es
  IsBase-IsShare [] h = tt
  IsBase-IsShare (e ∷ es) ((size, m, q, s), h) =
      ((size, m, omega arith, omega arith, s), IsBase-IsShare es h)

  pub grant_round-IsShare :
      (t assigned : ℕ) (p : Bool) (es : List Entry)
      → All (IsBase target total groups) es
      → All (IsShare target total groups) (grant_round t assigned p es).entries
  unfolding grant_round
  grant_round-IsShare t assigned p [] h = tt
  grant_round-IsShare t assigned p (e ∷ es) ((size, m, q, s), h) =
      if-both (λ (r : Round). All (IsShare target total groups) r.entries) (leb t assigned)
        (IsBase-IsShare (e ∷ es) ((size, m, q, s), h))
        (elim (Bool-cases (e.room == 0)) [
          | inl z ↦
              subst
                (λ b. All (IsShare target total groups) (if b then skipped else granted).entries)
                (sym z)
                ((size, m, omega arith, omega arith, s), grant_round-IsShare t assigned p es h)
          | inr z ↦
              subst
                (λ b. All (IsShare target total groups) (if b then skipped else granted).entries)
                (sym z)
                (
                  (size, m, omega arith, omega arith, ground arith),
                  grant_round-IsShare t (assigned + 1) true es h,
                )
        ])
    where
      skipped : Round
      skipped = push_entry e (grant_round t assigned p es)

      granted : Round
      granted =
          push_entry (record e { quota = e.quota + 1; room = e.room - 1 })
            (grant_round t (assigned + 1) true es)

pub share-le : (target total size : ℕ) → target ≤ total → 0 < total → target * size / total ≤ size
share-le target total size h p = div-le_of_le-mul total (grind arith)

-- A group with a remainder has room.
pub remainder_room :
    (target total size : ℕ)
    → target ≤ total
    → 0 < total
    → 0 < target * size % total
    → target * size / total < size
remainder_room target total size h p r =
    let e = div-add-mod' (target * size) total in
    let m : target * size ≤ total * size = grind arith in grind arith
