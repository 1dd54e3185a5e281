-- ===== src/Api/RateLimit.antt =====
-- The limit on the requests per minute (src/api/observability.js). The store of counters is a parameter: what
-- `INCR` gives is its documented law. A key that expires, after 120 seconds, is one of a minute that is over.
-- Headers are left out.
pub mod Window
use one_gl.Prelude.{
  Text, ℕ, suc, ◌+◌, ◌-◌, ◌*◌, ◌/◌, max, ◌≡◌, Bool, ◌≤◌, true, false, not, ◌&&◌, List, [], ◌∷◌,
  if◌then◌else◌, leb, ◌==◌,
}
use one_gl.Prelude.Keyed.{same_text}

pub record RateKey : Type 0 where
  pub identity : Text
  pub window : ℕ

unfoldable pub is_same_key : RateKey → RateKey → Bool
unfolding same_text
is_same_key a b = same_text a.identity b.identity && (a.window == b.window)

-- What `multi().incr().expire().exec()` comes to: the count, a list without one, which the source takes for
-- 0, or an exception.
pub data Reply : Type 0 where
  counted : ℕ → Reply
  unanswered rejected : Reply

-- The counters, as long as none expires: `INCR` gives the count that it leaves, and no count falls. A call that
-- fails may have counted or not.
pub record Counters (Store : Type 0) : Type 0 where
  pub incr : RateKey → Store → Reply × Store
  pub count_of : RateKey → Store → ℕ
  pub incr_counts :
      (k j : RateKey) (n : ℕ) (s : Store)
      → is_same_key k j ≡ true
      → (incr k s).0 ≡ counted n
      → (n ≡ suc (count_of j s)) × (count_of j (incr k s).1 ≡ n)
  pub incr_grows : (k j : RateKey) (s : Store) → count_of j s ≤ count_of j (incr k s).1

pub record Request : Type 0 where
  pub identity : Text
  pub now : ℕ

abbrev pub window_of : ℕ → ℕ
window_of now = now / 60000

abbrev pub reset_ms : ℕ → ℕ
reset_ms now = suc (window_of now) * 60000

-- `Math.max(1, Math.ceil((resetMs - now) / 1000))`
unfoldable pub retry_after : ℕ → ℕ
retry_after now = max 1 ((reset_ms now - now + 999) / 1000)

abbrev pub key_of : Request → RateKey
key_of q = record { identity = q.identity; window = window_of q.now }

-- The environment: the limit per minute, whether Redis is configured, and whether this is production.
pub record RateEnv : Type 0 where
  pub limit : ℕ
  pub is_queue_configured : Bool
  pub is_production : Bool

pub data Passage : Type 0 where
  passed limited refused : Passage

-- Where the limit cannot be looked up: an exception in production, and no limit elsewhere.
abbrev pub without_count : RateEnv → Passage
without_count env = if env.is_production then refused else passed

abbrev pub judge : RateEnv → Reply → Passage
judge env (counted n) = if leb n env.limit then passed else limited
judge env unanswered = if leb 0 env.limit then passed else limited
judge env rejected = without_count env

module _ {Store : Type 0} (c : Counters Store) (env : RateEnv) where
  unfoldable pub enforce_rate_limit : Request → Store → Passage × Store
  enforce_rate_limit q s =
      let (reply, t) = c.incr (key_of q) s in
      if env.limit == 0
      then (passed, s)
      else if not env.is_queue_configured
      then (without_count env, s)
      else (judge env reply, t)

  abbrev pub is_passed : Passage → Bool
  is_passed passed = true
  is_passed limited = false
  is_passed refused = false

  -- How many of the requests of a key pass.
  unfoldable pub passes : RateKey → List Request → Store → ℕ
  unfolding enforce_rate_limit is_same_key
  passes k [] s = 0
  passes k (q ∷ qs) s =
      let (p, t) = enforce_rate_limit q s in
      (if is_same_key (key_of q) k && is_passed p then 1 else 0) + passes k qs t

  abbrev pub is_unanswered : Reply → Bool
  is_unanswered (counted n) = false
  is_unanswered unanswered = true
  is_unanswered rejected = false

  -- How many of the requests of a key get a reply without a count.
  unfoldable pub count_unanswered : RateKey → List Request → Store → ℕ
  unfolding enforce_rate_limit is_same_key
  count_unanswered k [] s = 0
  count_unanswered k (q ∷ qs) s =
      (if is_same_key (key_of q) k && is_unanswered (c.incr (key_of q) s).0 then 1 else 0)
      + count_unanswered k qs (enforce_rate_limit q s).1
