-- ===== src/Sampling/Random/Shuffle.antt =====
-- The shuffle of src/sampling/random.js only reorders, and its generator is a fixed sequence.
use mathlib.Core.List.{Perm}
use mathlib.Core.List.Perm
use one_gl.Prelude.{
  ℕ, zero, suc, ◌+◌, ◌/◌, ◌%◌, ◌^◌, ◌<◌, ◌≤◌, ◌≡◌, refl, List, [], ◌∷◌, Option, none, some, ltb,
  length, get_elem?, get_or, set, arith, Bool-cases, ltb→lt, inl, inr, subst,
}
use one_gl.Sampling.Random.{
  Generator, create_seeded_random, refill, next, scaled, exchange, swap, shuffle_from, last_index,
  shuffle,
}

module _ {ℓ} {A : Type ℓ} where
  -- An overwritten entry and its new value change places.
  set-perm :
      (xs : List A) (i : ℕ) (a b : A) → get_elem? xs i ≡ some a → Perm (a ∷ set xs i b) (b ∷ xs)
  set-perm [] i a b e = cc
  set-perm (x ∷ xs) zero a b e =
      subst (λ y. Perm (a ∷ b ∷ xs) (b ∷ y ∷ xs)) (ground arith) (Perm.swap b a xs)
  set-perm (x ∷ xs) (suc i) a b e =
      Perm.trans (Perm.swap x a (set xs i b))
        (Perm.trans (Perm.cons x (set-perm xs i a b e)) (Perm.swap b x xs))

  get_elem?-set :
      (xs : List A) (i j : ℕ) (a b : A)
      → get_elem? xs i ≡ some a
      → get_elem? xs j ≡ some b
      → get_elem? (set xs i b) j ≡ some b
  get_elem?-set [] i j a b e f = cc
  get_elem?-set (x ∷ xs) zero zero a b e f = refl
  get_elem?-set (x ∷ xs) zero (suc j) a b e f = f
  get_elem?-set (x ∷ xs) (suc i) zero a b e f = f
  get_elem?-set (x ∷ xs) (suc i) (suc j) a b e f = get_elem?-set xs i j a b e f

  swap-perm : (xs : List A) (i j : ℕ) → Perm (swap xs i j) xs
  unfolding swap
  swap-perm xs i j = go (get_elem? xs i) (get_elem? xs j) refl refl
    where
      go :
          (o q : Option A) → get_elem? xs i ≡ o → get_elem? xs j ≡ q → Perm (exchange xs i j o q) xs
      go (some a) (some b) e f = Perm.cons_inv (
          Perm.trans (set-perm (set xs i b) j b a (get_elem?-set xs i j a b e f))
            (set-perm xs i a b e))
      go none q e f = Perm.refl xs
      go (some a) none e f = Perm.refl xs

  shuffle_from-perm :
      (digest : ℕ → List ℕ) (i : ℕ) (xs : List A) (g : Generator)
      → Perm (shuffle_from digest i xs g).0 xs
  unfolding shuffle_from
  shuffle_from-perm digest zero xs g = Perm.refl xs
  shuffle_from-perm digest (suc i) xs g =
      Perm.trans (shuffle_from-perm digest i _ (next digest g).1) (swap-perm xs (suc i) _)

  -- Whatever the seed and the state of the generator, a shuffled list has the same items as often.
  pub shuffle-perm :
      (digest : ℕ → List ℕ) (xs : List A) (g : Generator) → Perm (shuffle digest xs g).0 xs
  unfolding shuffle
  shuffle-perm digest xs g = shuffle_from-perm digest (last_index (length xs)) xs g

-- A draw below `n` is below `n`: the indices that the shuffle swaps are in range.
scaled-lt : (word n : ℕ) → word < 2 ^ 32 → 0 < n → scaled word n < n
scaled-lt word n h p = grind arith

-- The state after `k` draws from the start.
after_draws : (ℕ → List ℕ) → ℕ → Generator
after_draws digest zero = create_seeded_random
after_draws digest (suc k) = (next digest (after_draws digest k)).1

abbrev drawing : (ℕ → List ℕ) → ℕ → ℕ → Generator
drawing digest q r = record { counter = q + 1; block = digest q; offset = r }

refill-drawing :
    (digest : ℕ → List ℕ) (k : ℕ)
    → length (digest (k / 8)) ≡ 8
    → refill digest (drawing digest (k / 8) (k % 8 + 1)) ≡ drawing digest (suc k / 8) (suc k % 8)
unfolding refill
refill-drawing digest k eight = elim (Bool-cases (ltb 8 (k % 8 + 1 + 1))) [
  | inl e ↦
      let q : suc k / 8 ≡ k / 8 + 1 = omega (arith, ltb→lt 8 (k % 8 + 1 + 1) e) in
      let r : suc k % 8 ≡ 0 = omega (arith, ltb→lt 8 (k % 8 + 1 + 1) e) in rw (eight, e, q, r)
  | inr e ↦
      let h : k % 8 + 1 + 1 ≤ 8 = ground arith in
      let q : suc k / 8 ≡ k / 8 = omega (arith, h) in
      let r : suc k % 8 ≡ k % 8 + 1 = omega (arith, h) in rw (eight, e, q, r)
]

-- The state that the draw of number `k` reads from.
refill-after_draws :
    (digest : ℕ → List ℕ) (k : ℕ)
    → ((n : ℕ) → length (digest n) ≡ 8)
    → refill digest (after_draws digest k) ≡ drawing digest (k / 8) (k % 8)
unfolding after_draws next
refill-after_draws digest zero eight = unfold refill create_seeded_random in refl
refill-after_draws digest (suc k) eight =
    rw (refill-after_draws digest k eight) (refill-drawing digest k (eight (k / 8)))

-- Where every block has eight words, the draw of number `k` of a seed, from 0, is word `k % 8` of its
-- block `k / 8`.
next-after_draws :
    (digest : ℕ → List ℕ) (k : ℕ)
    → ((n : ℕ) → length (digest n) ≡ 8)
    → (next digest (after_draws digest k)).0 ≡ get_or (digest (k / 8)) (k % 8) 0
unfolding next
next-after_draws digest k eight = rw (refill-after_draws digest k eight)
