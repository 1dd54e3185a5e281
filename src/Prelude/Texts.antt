-- ===== src/Prelude/Texts.antt =====
-- A text as the list of its codes, and the string operations of JavaScript that several files call.
use Prim.Native.Nat.{ℕ, suc}
use Prim.Native.Char.{code}
use Prim.Native.String.{String}
use mathlib.Core.Path.{◌≡◌, refl}
use mathlib.Core.Bool.{false}
use mathlib.Core.Option.{Option, none, some}
use mathlib.Core.List.{List, [], ◌∷◌, ◌++◌}
use native.Mathlib.Omega.{arith}
use one_gl.Prelude.Tests.{if◌then◌else◌, ◌==◌}
use one_gl.Prelude.Lists.{All}

abbrev pub Text : Type 0
Text = List ℕ

abbrev pub codes : String → Text
codes String.[] = []
codes (String.◌∷◌ c s) = code c ∷ codes s

abbrev pub next_index : Option ℕ → Option ℕ
next_index none = none
next_index (some i) = some (suc i)

-- `text.indexOf(c)`
unfoldable pub index_of : ℕ → Text → Option ℕ
index_of c [] = none
index_of c (a ∷ as') = if a == c then some 0 else next_index (index_of c as')

abbrev pub cons_head : ℕ → List Text → List Text
cons_head a [] = (a ∷ []) ∷ []
cons_head a (t ∷ ts) = (a ∷ t) ∷ ts

-- `text.split(c)`
unfoldable pub split : ℕ → Text → List Text
split c [] = [] ∷ []
split c (a ∷ as') = let rest = split c as' in if a == c then [] ∷ rest else cons_head a rest

abbrev pub Lacks : ℕ → Text → Type 0
Lacks c = All (λ a. (a == c) ≡ false)

pub split-append : (c : ℕ) (xs ys : Text) → Lacks c xs → split c (xs ++ c ∷ ys) ≡ xs ∷ split c ys
unfolding split
split-append c [] ys h = ground arith
split-append c (x ∷ xs) ys h = rw (h.0, split-append c xs ys h.1)

pub split-whole : (c : ℕ) (xs : Text) → Lacks c xs → split c xs ≡ xs ∷ []
unfolding split
split-whole c [] h = refl
split-whole c (x ∷ xs) h = rw (h.0, split-whole c xs h.1)
