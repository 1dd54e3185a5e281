-- ===== src/Sampling/Assign/Spread.antt =====
-- Who asks what: the assignments of src/sampling/sample.js by prompt and repeat.
use native.Mathlib.Nat.{div-add-mod', mul-le-mul_right}
use native.Mathlib.Decide.{dec_le}
use mathlib.Core.Option.{some-injective}
use one_gl.Prelude.{
  ℕ, zero, suc, ◌+◌, ◌*◌, ◌/◌, ◌%◌, ◌<◌, ◌≤◌, ◌≡◌, ◌≢◌, refl, List, [], ◌∷◌, ◌++◌, some, length,
  length-append, get_elem?, arith, ap, ◌∙◌,
}
use one_gl.Sampling.Assign.{Assignment, assign_repeats, assign_all}

-- The assignment of a prompt to the account at a place of the round, under a selection index.
abbrev pub assigned {ℓ} : {P K : Type ℓ} → List K → P → ℕ → ℕ → Assignment P K
assigned ordered p place index = record {
  prompt = p;
  account_key = get_elem? ordered (place % length ordered);
  selection_index = index;
}

module _ {ℓ} {P K : Type ℓ} (ordered : List K) where
  assigned_ap :
      {p q : P} {a b s t : ℕ}
      → p ≡ q
      → a ≡ b
      → s ≡ t
      → some (assigned ordered p a s) ≡ some (assigned ordered q b t)
  assigned_ap d e f = λ x. some (assigned ordered (d x) (e x) (f x))

  length-assign_repeats :
      (p : P) (i r left s : ℕ) → length (assign_repeats ordered p i r left s) ≡ left
  unfolding assign_repeats
  length-assign_repeats p i r zero s = refl
  length-assign_repeats p i r (suc left) s = ap suc (length-assign_repeats p i (suc r) left (s + 1))

  get-assign_repeats :
      (p : P) (i r left s j : ℕ)
      → j < left
      → get_elem? (assign_repeats ordered p i r left s) j
        ≡ some (assigned ordered p (i + r + j) (s + j + 1))
  unfolding assign_repeats
  get-assign_repeats p i r zero s j h = elim h [ ]
  get-assign_repeats p i r (suc left) s zero h = assigned_ap refl (omega arith) (omega arith)
  get-assign_repeats p i r (suc left) s (suc j) h =
      get-assign_repeats p i (suc r) left (s + 1) j (omega arith)
      ∙ assigned_ap refl (omega arith) (omega arith)

module _ {ℓ} {A : Type ℓ} where
  get-append_left :
      (xs ys : List A) (i : ℕ) → i < length xs → get_elem? (xs ++ ys) i ≡ get_elem? xs i
  get-append_left [] ys i h = elim h [ ]
  get-append_left (x ∷ xs) ys zero h = refl
  get-append_left (x ∷ xs) ys (suc i) h = get-append_left xs ys i (omega arith)

  get-append_right :
      (xs ys : List A) (i : ℕ) → get_elem? (xs ++ ys) (length xs + i) ≡ get_elem? ys i
  get-append_right [] ys i = let e : 0 + i ≡ i = omega arith in ap (get_elem? ys) e
  get-append_right (x ∷ xs) ys i =
      let e : length (x ∷ xs) + i ≡ suc (length xs + i) = omega arith in
      ap (get_elem? ((x ∷ xs) ++ ys)) e ∙ get-append_right xs ys i

module _ {ℓ} {P K : Type ℓ} (ordered : List K) (repeats : ℕ) where
  get-assign_all :
      (ps : List P) (i0 s i j : ℕ) (p : P)
      → get_elem? ps i ≡ some p
      → j < repeats
      → get_elem? (assign_all ordered repeats ps i0 s) (i * repeats + j)
        ≡ some (assigned ordered p (i0 + i + j) (s + i * repeats + j + 1))
  unfolding assign_all
  get-assign_all [] i0 s i j p e h = cc
  get-assign_all (x ∷ ps) i0 s zero j p e h =
      let at : zero * repeats + j ≡ j = omega arith in
      ap (get_elem? (assign_all ordered repeats (x ∷ ps) i0 s)) at
      ∙ get-append_left (assign_repeats ordered x i0 0 repeats s) _ j
          (omega (arith, length-assign_repeats ordered x i0 0 repeats s))
      ∙ get-assign_repeats ordered x i0 0 repeats s j h
      ∙ assigned_ap ordered (some-injective x p e) (omega arith) (omega arith)
  get-assign_all (x ∷ ps) i0 s (suc i) j p e h =
      let first = assign_repeats ordered x i0 0 repeats s in
      let at : suc i * repeats + j ≡ length first + (i * repeats + j) =
        omega (arith, length-assign_repeats ordered x i0 0 repeats s) in
      ap (get_elem? (assign_all ordered repeats (x ∷ ps) i0 s)) at
      ∙ get-append_right (assign_repeats ordered x i0 0 repeats s) _ (i * repeats + j)
      ∙ get-assign_all ps (suc i0) (s + repeats) i j p e h
      ∙ assigned_ap ordered refl (omega arith) (omega arith)

  length-assign_all :
      (ps : List P) (i0 s : ℕ) → length (assign_all ordered repeats ps i0 s) ≡ length ps * repeats
  unfolding assign_all
  length-assign_all [] i0 s = omega arith
  length-assign_all (p ∷ ps) i0 s = omega (
    arith,
    length-append (assign_repeats ordered p i0 0 repeats s)
        (assign_all ordered repeats ps (suc i0) (s + repeats)),
    length-assign_repeats ordered p i0 0 repeats s,
    length-assign_all ps (suc i0) (s + repeats),
  )

-- Two numbers less than `n` apart have different remainders by `n`.
mod_apart : (a b n : ℕ) → a < b → b < a + n → a % n ≢ b % n
mod_apart a b n h k same = elim (dec_le (b / n) (a / n)) [
  | yes le ↦ omega (
    arith,
    div-add-mod' a n,
    div-add-mod' b n,
    same,
    mul-le-mul_right {m = b / n} {n = a / n} n le,
  )
  | no gt ↦
      let lt : a / n + 1 ≤ b / n = omega arith in
      omega (
        arith,
        div-add-mod' a n,
        div-add-mod' b n,
        same,
        mul-le-mul_right {m = a / n + 1} {n = b / n} n lt,
      )
]

-- The account of a prompt's repeat: the prompt with place `i` gets its repeat `j` from the account at
-- place `i + j`, counted round the shuffled accounts, under the selection index `i * repeats + j + 1`;
-- there are no other assignments. With no more repeats than accounts no two repeats of one prompt
-- share a place of the round.
assign_all-spread {ℓ} :
    {P K : Type ℓ} (ordered : List K) (repeats : ℕ) (ps : List P) (i j : ℕ) (p : P)
    → get_elem? ps i ≡ some p
    → j < repeats
    → (get_elem? (assign_all ordered repeats ps 0 0) (i * repeats + j)
        ≡ some (assigned ordered p (i + j) (i * repeats + j + 1)))
      × (length (assign_all ordered repeats ps 0 0) ≡ length ps * repeats)
      × ((k : ℕ)
          → k < j
          → repeats ≤ length ordered
          → (i + k) % length ordered ≢ (i + j) % length ordered)
assign_all-spread ordered repeats ps i j p e h = (
  get-assign_all ordered repeats ps 0 0 i j p e h
      ∙ assigned_ap ordered refl (omega arith) (omega arith),
  length-assign_all ordered repeats ps 0 0,
  λ k lt le same. mod_apart (i + k) (i + j) (length ordered) (omega arith) (omega arith) same,
)
