-- ===== src/Prelude/Keyed.antt =====
-- Maps and tables as lists of items that hold their key.
use one_gl.Prelude.{
  Text, ℕ, ◌+◌, ◌≡◌, refl, ap, Bool, true, false, ◌&&◌, Option, none, some, List, [], ◌∷◌, ◌++◌,
  if◌then◌else◌, ◌==◌, arith, length, sum_by, Bool-cases, inl, inr, ◌⊎◌, sym, ◌∙◌, ◌≤◌, if-both,
}
use mathlib.Core.Bool.{true≢false}
use mathlib.Core.Option.{some-injective}

unfoldable pub same_text : Text → Text → Bool
same_text [] [] = true
same_text (a ∷ xs) (b ∷ ys) = a == b && same_text xs ys
same_text _ _ = false

pub same_text_sound : (xs ys : Text) → same_text xs ys ≡ true → xs ≡ ys
unfolding same_text
same_text_sound [] [] h = refl
same_text_sound [] (y ∷ ys) h = cc
same_text_sound (x ∷ xs) [] h = cc
same_text_sound (x ∷ xs) (y ∷ ys) h = split (x == y) refl h (same_text_sound xs ys)
  where
    same : (x == y) ≡ true → x ≡ y
    same f = ground arith

    split :
        (b : Bool)
        → (x == y) ≡ b
        → b && same_text xs ys ≡ true
        → (same_text xs ys ≡ true → xs ≡ ys)
        → x ∷ xs ≡ y ∷ ys
    split true e k ih = λ i. same e i ∷ ih k i
    split false e k ih = cc

pub same_text_refl : (xs : Text) → same_text xs xs ≡ true
unfolding same_text
same_text_refl [] = refl
same_text_refl (x ∷ xs) = ground (arith, same_text_refl xs)

module _ {A : Type 0} (key_of : A → Text) where
  unfoldable pub find_by : Text → List A → Option A
  unfolding same_text
  find_by k [] = none
  find_by k (x ∷ xs) = if same_text (key_of x) k then some x else find_by k xs

  unfoldable pub remove_by : Text → List A → List A
  unfolding same_text
  remove_by k [] = []
  remove_by k (x ∷ xs) = if same_text (key_of x) k then xs else x ∷ remove_by k xs

  unfoldable pub replace_by : Text → (A → A) → List A → List A
  unfolding same_text
  replace_by k g [] = []
  replace_by k g (x ∷ xs) = if same_text (key_of x) k then g x ∷ xs else x ∷ replace_by k g xs

  -- The items under a key.
  abbrev pub is_under : Text → A → ℕ
  is_under k x = if same_text (key_of x) k then 1 else 0

  pub find_by-remove_by :
      (f : A → ℕ) (k : Text) (xs : List A) (x : A)
      → find_by k xs ≡ some x
      → sum_by f (remove_by k xs) + f x ≡ sum_by f xs
  unfolding find_by remove_by
  find_by-remove_by f k [] x h = cc
  find_by-remove_by f k (y ∷ ys) x h = cases (same_text (key_of y) k) h (find_by-remove_by f k ys x)
    where
      cases :
          (b : Bool)
          → (if b then some y else find_by k ys) ≡ some x
          → (find_by k ys ≡ some x → sum_by f (remove_by k ys) + f x ≡ sum_by f ys)
          → sum_by f (if b then ys else y ∷ remove_by k ys) + f x ≡ f y + sum_by f ys
      cases true e ih = omega (arith, ap f (some-injective y x e))
      cases false e ih = omega (arith, ih e)

  pub find_by-replace_by :
      (f : A → ℕ) (k : Text) (g : A → A) (xs : List A) (x : A)
      → find_by k xs ≡ some x
      → sum_by f (replace_by k g xs) + f x ≡ sum_by f xs + f (g x)
  unfolding find_by replace_by
  find_by-replace_by f k g [] x h = cc
  find_by-replace_by f k g (y ∷ ys) x h =
      cases (same_text (key_of y) k) h (find_by-replace_by f k g ys x)
    where
      cases :
          (b : Bool)
          → (if b then some y else find_by k ys) ≡ some x
          → (find_by k ys ≡ some x → sum_by f (replace_by k g ys) + f x ≡ sum_by f ys + f (g x))
          → sum_by f (if b then g y ∷ ys else y ∷ replace_by k g ys) + f x
            ≡ f y + sum_by f ys + f (g x)
      cases true e ih =
          omega (arith, ap f (some-injective y x e), ap (λ z. f (g z)) (some-injective y x e))
      cases false e ih = omega (arith, ih e)

  pub find_by-key : (k : Text) (xs : List A) (x : A) → find_by k xs ≡ some x → key_of x ≡ k
  unfolding find_by
  find_by-key k [] x h = cc
  find_by-key k (y ∷ ys) x h = cases (same_text (key_of y) k) refl h (find_by-key k ys x)
    where
      cases :
          (b : Bool)
          → same_text (key_of y) k ≡ b
          → (if b then some y else find_by k ys) ≡ some x
          → (find_by k ys ≡ some x → key_of x ≡ k)
          → key_of x ≡ k
      cases true e h ih = sym (ap key_of (some-injective y x h)) ∙ same_text_sound (key_of y) k e
      cases false e h ih = ih h

  pub find_by-absent : (k : Text) (xs : List A) → find_by k xs ≡ none → sum_by (is_under k) xs ≡ 0
  unfolding find_by
  find_by-absent k [] h = refl
  find_by-absent k (y ∷ ys) h = cases (same_text (key_of y) k) h (find_by-absent k ys)
    where
      cases :
          (b : Bool)
          → (if b then some y else find_by k ys) ≡ none
          → (find_by k ys ≡ none → sum_by (is_under k) ys ≡ 0)
          → (if b then 1 else 0) + sum_by (is_under k) ys ≡ 0
      cases true e ih = cc
      cases false e ih = omega (arith, ih e)

  pub replace_by-keeps :
      (f : A → ℕ) (k : Text) (g : A → A) (xs : List A)
      → ((x : A) → f (g x) ≡ f x)
      → sum_by f (replace_by k g xs) ≡ sum_by f xs
  unfolding replace_by
  replace_by-keeps f k g [] h = refl
  replace_by-keeps f k g (y ∷ ys) h =
      if-both (λ zs. sum_by f zs ≡ f y + sum_by f ys) (same_text (key_of y) k) (omega (arith, h y))
        (omega (arith, replace_by-keeps f k g ys h))

  pub find_by-replaced :
      (k j : Text) (g : A → A) (xs : List A) (x : A)
      → ((y : A) → key_of (g y) ≡ key_of y)
      → find_by k xs ≡ some x
      → find_by k (replace_by j g xs) ≡ some (if same_text j k then g x else x)
  unfolding find_by replace_by
  find_by-replaced k j g [] x keeps h = cc
  find_by-replaced k j g (y ∷ ys) x keeps h =
      cases (same_text (key_of y) j) (same_text (key_of y) k) refl refl h
        (find_by-replaced k j g ys x keeps)
    where
      cases :
          (b c : Bool)
          → same_text (key_of y) j ≡ b
          → same_text (key_of y) k ≡ c
          → (if c then some y else find_by k ys) ≡ some x
          → (find_by k ys ≡ some x
              → find_by k (replace_by j g ys) ≡ some (if same_text j k then g x else x))
          → find_by k (if b then g y ∷ ys else y ∷ replace_by j g ys)
            ≡ some (if same_text j k then g x else x)
      cases true true e f h ih =
          ap (λ b. if b then some (g y) else find_by k ys) (ap (λ t. same_text t k) (keeps y) ∙ f)
          ∙ rw (ap (λ t. same_text t k) (sym (same_text_sound (key_of y) j e)) ∙ f)
              (ap some (ap g (some-injective y x h)))
      cases true false e f h ih =
          ap (λ b. if b then some (g y) else find_by k ys) (ap (λ t. same_text t k) (keeps y) ∙ f)
          ∙ rw (ap (λ t. same_text t k) (sym (same_text_sound (key_of y) j e)) ∙ f) h
      cases false true e f h ih = rw (f, apart (Bool-cases (same_text j k))) h
        where
          apart : (same_text j k ≡ true) ⊎ (same_text j k ≡ false) → same_text j k ≡ false
          apart (inr q) = q
          apart (inl q) =
              absurd (true≢false (sym (ap (same_text (key_of y)) (same_text_sound j k q) ∙ f) ∙ e))
      cases false false e f h ih = rw f (ih h)

  pub find_by-append :
      (k : Text) (xs ys : List A) → find_by k xs ≡ none → find_by k (xs ++ ys) ≡ find_by k ys
  unfolding find_by
  find_by-append k [] ys h = refl
  find_by-append k (x ∷ xs) ys h = cases (same_text (key_of x) k) h (find_by-append k xs ys)
    where
      cases :
          (b : Bool)
          → (if b then some x else find_by k xs) ≡ none
          → (find_by k xs ≡ none → find_by k (xs ++ ys) ≡ find_by k ys)
          → (if b then some x else find_by k (xs ++ ys)) ≡ find_by k ys
      cases true e ih = cc
      cases false e ih = ih e

  pub find_by-single : (k : Text) (x : A) → key_of x ≡ k → find_by k (x ∷ []) ≡ some x
  unfolding find_by
  find_by-single k x h = rw (h, same_text_refl k) refl

module _ {A : Type 0} where
  pub sum_by-append : (f : A → ℕ) (xs ys : List A) → sum_by f (xs ++ ys) ≡ sum_by f xs + sum_by f ys
  sum_by-append f [] ys = omega arith
  sum_by-append f (x ∷ xs) ys = omega (arith, sum_by-append f xs ys)

  pub sum_by-one : (xs : List A) → sum_by (λ _. 1) xs ≡ length xs
  sum_by-one [] = refl
  sum_by-one (x ∷ xs) = omega (arith, sum_by-one xs)

  pub sum_by-le : (f g : A → ℕ) (xs : List A) → ((x : A) → f x ≤ g x) → sum_by f xs ≤ sum_by g xs
  sum_by-le f g [] h = omega arith
  sum_by-le f g (x ∷ xs) h = omega (arith, h x, sum_by-le f g xs h)
