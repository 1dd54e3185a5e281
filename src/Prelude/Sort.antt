-- ===== src/Prelude/Sort.antt =====
-- A stable insertion sort, for JavaScript's `sort` with a comparator, and sums over a list.
use Prim.Native.Nat.{ℕ, ◌+◌, ◌≤◌}
use mathlib.Core.Path.{◌≡◌, refl}
use mathlib.Core.Bool.{Bool, true, false}
use mathlib.Core.List.{List, [], ◌∷◌, Perm}
use mathlib.Core.List.Perm
use native.Mathlib.Omega.{arith}
use one_gl.Prelude.Tests.{if◌then◌else◌, Bool-cases, if-both, ltb}
use one_gl.Prelude.Lists.{All}
use mathlib.Core.Logic.{inl, inr}

module _ {ℓ} {A : Type ℓ} where
  -- `after x y`: `x` belongs strictly behind `y`.
  pub insert_by : (A → A → Bool) → A → List A → List A
  insert_by after x [] = x ∷ []
  insert_by after x (y ∷ ys) = if after x y then y ∷ insert_by after x ys else x ∷ y ∷ ys

  unfoldable pub sort_by : (A → A → Bool) → List A → List A
  unfolding insert_by
  sort_by after [] = []
  sort_by after (x ∷ xs) = insert_by after x (sort_by after xs)

  insert_by-perm :
      (after : A → A → Bool) (x : A) (ys : List A) → Perm (insert_by after x ys) (x ∷ ys)
  unfolding insert_by
  insert_by-perm after x [] = Perm.refl (x ∷ [])
  insert_by-perm after x (y ∷ ys) = elim (Bool-cases (after x y)) [
    | inl e ↦ rw e (Perm.trans (Perm.cons y (insert_by-perm after x ys)) (Perm.swap x y ys))
    | inr e ↦ rw e (Perm.refl (x ∷ y ∷ ys))
  ]

  pub sort_by-perm : (after : A → A → Bool) (xs : List A) → Perm (sort_by after xs) xs
  unfolding sort_by
  sort_by-perm after [] = Perm.refl []
  sort_by-perm after (x ∷ xs) =
      Perm.trans (insert_by-perm after x (sort_by after xs)) (Perm.cons x (sort_by-perm after xs))

  abbrev pub sum_by : (A → ℕ) → List A → ℕ
  sum_by f [] = 0
  sum_by f (x ∷ xs) = f x + sum_by f xs

  sum_by-insert_by :
      (f : A → ℕ) (after : A → A → Bool) (x : A) (ys : List A)
      → sum_by f (insert_by after x ys) ≡ f x + sum_by f ys
  unfolding insert_by
  sum_by-insert_by f after x [] = refl
  sum_by-insert_by f after x (y ∷ ys) = ground (arith, sum_by-insert_by f after x ys)

  pub sum_by-sort_by :
      (f : A → ℕ) (after : A → A → Bool) (xs : List A) → sum_by f (sort_by after xs) ≡ sum_by f xs
  unfolding sort_by
  sum_by-sort_by f after [] = refl
  sum_by-sort_by f after (x ∷ xs) =
      omega (arith, sum_by-insert_by f after x (sort_by after xs), sum_by-sort_by f after xs)

module _ {ℓ κ} {A : Type ℓ} (P : A → Type κ) (after : A → A → Bool) where
  All-insert_by : (x : A) (ys : List A) → P x → All P ys → All P (insert_by after x ys)
  unfolding insert_by
  All-insert_by x [] h k = (h, tt)
  All-insert_by x (y ∷ ys) h k = if-both (All P) (after x y) (k.0, All-insert_by x ys h k.1) (h, k)

  pub All-sort_by : (xs : List A) → All P xs → All P (sort_by after xs)
  unfolding sort_by
  All-sort_by [] h = tt
  All-sort_by (x ∷ xs) h = All-insert_by x (sort_by after xs) h.0 (All-sort_by xs h.1)

  All-insert_by_parts : (x : A) (ys : List A) → All P (insert_by after x ys) → P x × All P ys
  unfolding insert_by
  All-insert_by_parts x [] h = (h.0, tt)
  All-insert_by_parts x (y ∷ ys) h = parts (after x y) (All-insert_by_parts x ys) h
    where
      parts :
          (b : Bool)
          → (All P (insert_by after x ys) → P x × All P ys)
          → All P (if b then y ∷ insert_by after x ys else x ∷ y ∷ ys)
          → P x × All P (y ∷ ys)
      parts true ih k = let (px, rest) = ih k.1 in (px, (k.0, rest))
      parts false ih k = k

  pub All-of-sort_by : (xs : List A) → All P (sort_by after xs) → All P xs
  unfolding sort_by
  All-of-sort_by [] h = tt
  All-of-sort_by (x ∷ xs) h =
      let (px, rest) = All-insert_by_parts x (sort_by after xs) h in (px, All-of-sort_by xs rest)

-- Sorted by a number: the first item has the least.
module _ {ℓ} {A : Type ℓ} (f : A → ℕ) where
  abbrev pub larger : A → A → Bool
  larger a b = ltb (f b) (f a)

  abbrev pub HeadLeast : List A → Type 0
  HeadLeast [] = Unit
  HeadLeast (x ∷ xs) = All (λ y. f x ≤ f y) xs

  All-least :
      (x y : A) (ys : List A) → f x ≤ f y → All (λ z. f y ≤ f z) ys → All (λ z. f x ≤ f z) ys
  All-least x y [] h k = tt
  All-least x y (z ∷ ys) h k = (omega (arith, k.0), All-least x y ys h k.1)

  insert_by-HeadLeast : (x : A) (ys : List A) → HeadLeast ys → HeadLeast (insert_by larger x ys)
  unfolding insert_by
  insert_by-HeadLeast x [] h = tt
  insert_by-HeadLeast x (y ∷ ys) h = elim (Bool-cases (larger x y)) [
    | inl e ↦ rw e (All-insert_by (λ z. f y ≤ f z) larger x ys (ground arith) h)
    | inr e ↦ let le : f x ≤ f y = ground arith in rw e (le, All-least x y ys le h)
  ]

  pub sort_by-HeadLeast : (xs : List A) → HeadLeast (sort_by larger xs)
  unfolding sort_by
  sort_by-HeadLeast [] = tt
  sort_by-HeadLeast (x ∷ xs) = insert_by-HeadLeast x (sort_by larger xs) (sort_by-HeadLeast xs)
