-- ===== src/Api/RateLimit/Window.antt =====
-- How many requests pass in a window (src/api/observability.js).
use one_gl.Prelude.{
  ℕ, ◌+◌, ◌-◌, ◌*◌, ◌≤◌, ◌≡◌, refl, Bool, true, false, ◌&&◌, List, [], ◌∷◌, if◌then◌else◌, leb, not,
  ◌==◌, ◌<◌, if-both, if-cases, ap, ◌∙◌, arith,
}
use one_gl.Api.RateLimit.{
  RateKey, is_same_key, Reply, counted, unanswered, rejected, Counters, Request, reset_ms,
  retry_after, key_of, RateEnv, Passage, passed, refused, without_count, judge, enforce_rate_limit,
  is_passed, passes, is_unanswered, count_unanswered,
}

module _ {Store : Type 0} (c : Counters Store) (env : RateEnv) where
  -- In production, with a limit that is not 0 and as long as no counter expires: of the requests of one key, no
  -- more pass than the limit leaves and the replies without a count together, whatever calls of the store fail
  -- and whatever requests of other keys come between.
  pub passes-le :
      (k : RateKey) (qs : List Request) (s : Store)
      → env.is_production ≡ true
      → 0 < env.limit
      → passes c env k qs s ≤ (env.limit - c.count_of k s) + count_unanswered c env k qs s
  unfolding passes count_unanswered enforce_rate_limit
  passes-le k [] s production positive = omega arith
  passes-le k (q ∷ qs) s production positive =
      step (env.limit == 0) refl env.is_queue_configured (passes-le k qs s production positive)
        (passes-le k qs (c.incr (key_of q) s).1 production positive)
    where
      Bound : Passage × Store → Type 0
      Bound r =
          (if is_same_key (key_of q) k && is_passed c env r.0 then 1 else 0) + passes c env k qs r.1
          ≤ (env.limit - c.count_of k s)
            + ((if is_same_key (key_of q) k && is_unanswered c env (c.incr (key_of q) s).0
                  then 1
                  else 0)
                + count_unanswered c env k qs r.1)

      not_passed : is_passed c env (without_count env) ≡ false
      not_passed = ap (λ b. is_passed c env (if b then refused else passed)) production

      -- One reply of the store.
      replied :
          (b : Bool) (r : Reply)
          → is_same_key (key_of q) k ≡ b
          → (c.incr (key_of q) s).0 ≡ r
          → passes c env k qs (c.incr (key_of q) s).1
            ≤ (env.limit - c.count_of k (c.incr (key_of q) s).1)
              + count_unanswered c env k qs (c.incr (key_of q) s).1
          → (if b && is_passed c env (judge env r) then 1 else 0)
              + passes c env k qs (c.incr (key_of q) s).1
            ≤ (env.limit - c.count_of k s)
              + ((if b && is_unanswered c env r then 1 else 0)
                  + count_unanswered c env k qs (c.incr (key_of q) s).1)
      replied false r e f next = omega (arith, next, c.incr_grows (key_of q) k s)
      replied true rejected e f next = omega (
        arith,
        next,
        c.incr_grows (key_of q) k s,
        ap {B = ℕ} (λ b. if b then 1 else 0) not_passed,
      )
      replied true unanswered e f next =
          if-both
            (λ p.
              (if is_passed c env p then 1 else 0) + passes c env k qs (c.incr (key_of q) s).1
              ≤ (env.limit - c.count_of k s)
                + (1 + count_unanswered c env k qs (c.incr (key_of q) s).1))
            (leb 0 env.limit) (omega (arith, next, c.incr_grows (key_of q) k s))
            (omega (arith, next, c.incr_grows (key_of q) k s))
      replied true (counted n) e f next =
          let (gives, counts) = c.incr_counts (key_of q) k n s e f in
          if-cases
            (λ p.
              (if is_passed c env p then 1 else 0) + passes c env k qs (c.incr (key_of q) s).1
              ≤ (env.limit - c.count_of k s)
                + (0 + count_unanswered c env k qs (c.incr (key_of q) s).1))
            (leb n env.limit) (λ low. ground (arith, next, gives, counts, low))
            (λ high. omega (arith, next, gives, counts))

      nothing : (b : Bool) → ◌≡◌ {A = ℕ} (if b && false then 1 else 0) 0
      nothing true = refl
      nothing false = refl

      step :
          (none : Bool)
          → (env.limit == 0) ≡ none
          → (configured : Bool)
          → passes c env k qs s ≤ (env.limit - c.count_of k s) + count_unanswered c env k qs s
          → passes c env k qs (c.incr (key_of q) s).1
            ≤ (env.limit - c.count_of k (c.incr (key_of q) s).1)
              + count_unanswered c env k qs (c.incr (key_of q) s).1
          → Bound (
              if none
              then (passed, s)
              else if not configured
              then (without_count env, s)
              else (judge env (c.incr (key_of q) s).0, (c.incr (key_of q) s).1))
      step true e configured same next = absurd (ground (arith, e, positive))
      step false e false same next = omega (
        arith,
        same,
        ap {B = ℕ} (λ b. if is_same_key (key_of q) k && b then 1 else 0) not_passed
            ∙ nothing (is_same_key (key_of q) k),
      )
      step false e true same next =
          replied (is_same_key (key_of q) k) (c.incr (key_of q) s).0 refl refl next

-- A request that is refused is told to come again after at least one second and at most a minute, and then its
-- window is over.
retry_after-bounds :
    (now : ℕ)
    → (1 ≤ retry_after now) × (retry_after now ≤ 60) × (reset_ms now ≤ now + 1000 * retry_after now)
unfolding retry_after
retry_after-bounds now = (omega arith, omega arith, omega arith)
