-- ===== src/Tests/Analysis.antt =====
-- Safe slices, and the limit on requests with counters as a list of keys.
use mathlib.Core.Bool.{true≢false}
use one_gl.Prelude.{
  ℕ, suc, ◌+◌, ◌-◌, ◌≤◌, ◌≡◌, refl, sym, ap, Bool, true, false, List, [], ◌∷◌, ◌&&◌, ◌==◌, codes,
  sum_by, arith, if◌then◌else◌,
}
use one_gl.Prelude.Keyed.{same_text, same_text_sound}
use one_gl.Analysis.Slice.{safe_slice, has_lone_surrogate}
use one_gl.Analysis.Slice.Whole.{safe_slice-no_lone_surrogate}
use one_gl.Api.RateLimit.{
  RateKey, is_same_key, Counters, Reply, counted, unanswered, rejected, RateEnv, Request, passes,
  count_unanswered,
}
use one_gl.Api.RateLimit.Window.{passes-le}

-- A letter, a link sign in two units, and a letter; the slice cuts the sign.
safe_slice-no_lone_surrogate_example :
    has_lone_surrogate (safe_slice (97 ∷ 55357 ∷ 56599 ∷ 98 ∷ []) 0 2) ≡ false
safe_slice-no_lone_surrogate_example =
    safe_slice-no_lone_surrogate (97 ∷ 55357 ∷ 56599 ∷ 98 ∷ []) 0 2

abbrev count : RateKey → List RateKey → ℕ
count k ks = sum_by (λ j. if is_same_key j k then 1 else 0) ks

is_same_key-eq : (a b : RateKey) → is_same_key a b ≡ true → a ≡ b
unfolding is_same_key
is_same_key-eq a b h = both (same_text a.identity b.identity) refl (a.window == b.window) refl h
  where
    windows : (a.window == b.window) ≡ true → a.window ≡ b.window
    windows e = ground arith

    both :
        (p : Bool)
        → same_text a.identity b.identity ≡ p
        → (q : Bool) → (a.window == b.window) ≡ q
        → p && q ≡ true
        → a ≡ b
    both true e true f h =
        λ i. record { identity = same_text_sound a.identity b.identity e i; window = windows f i }
    both true e false f h = absurd (true≢false (sym h))
    both false e q f h = absurd (true≢false (sym h))

key_list-counts :
    (k j : RateKey) (n : ℕ) (ks : List RateKey)
    → is_same_key k j ≡ true
    → counted (suc (count k ks)) ≡ counted n
    → (n ≡ suc (count j ks)) × (count j (k ∷ ks) ≡ n)
key_list-counts k j n ks e f =
    let same : count k ks ≡ count j ks = ap (λ i. count i ks) (is_same_key-eq k j e) in
    let value : suc (count k ks) ≡ n = ap count_in f in
    let one : ◌≡◌ {A = ℕ} (if is_same_key k j then 1 else 0) 1 = rw e refl in
    (omega (arith, same, value), omega (arith, same, value, one))
  where
    count_in : Reply → ℕ
    count_in (counted m) = m
    count_in unanswered = 0
    count_in rejected = 0

abbrev key_list : Counters (List RateKey)
key_list = record {
  incr = λ k ks. (counted (suc (count k ks)), k ∷ ks);
  count_of = count;
  incr_counts = key_list-counts;
  incr_grows = λ k j ks. omega arith;
}

abbrev production : RateEnv
production = record { limit = 2; is_queue_configured = true; is_production = true }

abbrev early : Request
early = record { identity = codes "x"; now = 60001 }

passes-le_example :
    passes key_list production
      (record { identity = codes "x"; window = 1 })
      (early ∷ early ∷ early ∷ [])
      []
    ≤ (2 - 0)
      + count_unanswered key_list production
          (record { identity = codes "x"; window = 1 })
          (early ∷ early ∷ early ∷ [])
          []
passes-le_example =
    passes-le key_list production (record { identity = codes "x"; window = 1 })
      (early ∷ early ∷ early ∷ []) [] refl (omega arith)
