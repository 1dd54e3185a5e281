-- ===== src/Sampling/Random.antt =====
-- src/sampling/random.js. A value of the generator, the quotient of a 32-bit word by 2 ^ 32, is kept as
-- its word; `floor(random() * n)` is then exact. The HMAC is node's: `digest n` stands for the eight
-- words of the block of counter `n`.
pub mod Shuffle
use one_gl.Prelude.{
  ℕ, zero, suc, ◌+◌, ◌*◌, ◌/◌, ◌%◌, ◌^◌, ◌<◌, ◌≡◌, refl, List, [], ◌∷◌, Option, none, some, ltb,
  if◌then◌else◌, length, get_elem?, get_or, set, arith,
}

pub record Generator : Type 0 where
  pub counter : ℕ
  pub block : List ℕ
  pub offset : ℕ

unfoldable pub create_seeded_random : Generator
create_seeded_random = record { counter = 0; block = []; offset = 0 }

-- A new block where the present one is used up.
unfoldable pub refill : (ℕ → List ℕ) → Generator → Generator
refill digest g =
    if ltb (length g.block) (g.offset + 1)
    then record { counter = g.counter + 1; block = digest g.counter; offset = 0 }
    else g

unfoldable pub next : (ℕ → List ℕ) → Generator → ℕ × Generator
unfolding refill
next digest g =
    let g' = refill digest g in (get_or g'.block g'.offset 0, record g' { offset = g'.offset + 1 })

-- floor(random() * n)
abbrev pub scaled : ℕ → ℕ → ℕ
scaled word n = word * n / 2 ^ 32

-- [copy[i], copy[j]] = [copy[j], copy[i]]; both indices of `shuffle` are in range.
abbrev pub exchange {ℓ} : {A : Type ℓ} → List A → ℕ → ℕ → Option A → Option A → List A
exchange xs i j (some a) (some b) = set (set xs i b) j a
exchange xs i j none q = xs
exchange xs i j (some a) none = xs

unfoldable pub swap {ℓ} : {A : Type ℓ} → List A → ℕ → ℕ → List A
swap xs i j = exchange xs i j (get_elem? xs i) (get_elem? xs j)

-- The loop from the last index down to 1.
unfoldable pub shuffle_from {ℓ} :
    {A : Type ℓ} → (ℕ → List ℕ) → ℕ → List A → Generator → List A × Generator
unfolding next swap
shuffle_from digest zero xs g = (xs, g)
shuffle_from digest (suc i) xs g =
    let (word, g') = next digest g in
    shuffle_from digest i (swap xs (suc i) (scaled word (suc i + 1))) g'

abbrev last_index : ℕ → ℕ
last_index zero = 0
last_index (suc n) = n

unfoldable pub shuffle {ℓ} : {A : Type ℓ} → (ℕ → List ℕ) → List A → Generator → List A × Generator
unfolding shuffle_from
shuffle digest xs g = shuffle_from digest (last_index (length xs)) xs g
