-- ===== src/Risk/Level.antt =====
-- What the levels of src/operation-risk.js depend on.
use mathlib.Core.Bool.{true≢false}
use one_gl.Prelude.{
  ℕ, ◌*◌, ◌≡◌, inl, inr, refl, sym, ap, ◌∙◌, Bool, true, false, ◌&&◌, ◌||◌, some, List, [], ◌∷◌,
  ◌++◌, map, if◌then◌else◌, ltb, leb, Bool-cases,
}
use one_gl.Risk.{
  Risk, low, medium, high, severity_score, highest_risk, App, Cadence, below, when, audit_findings,
  audit_operation_risk, status_sign, failure_sign, daily_sign, hourly_sign, account_signs,
  assess_account_risk,
}
use one_gl.Providers.{Registry}
use one_gl.Account.Classify.{or_else}
use one_gl.Account.State.{
  AccountState, SafetyConfig, Status, healthy, unknown, disabled, paused, cooldown, rate_limited,
  login_required, session_expired, verification_required, access_restricted,
}

abbrev pub is_high : Risk → Bool
is_high low = false
is_high medium = false
is_high high = true

unfoldable pub any_high : List Risk → Bool
any_high [] = false
any_high (l ∷ ls) = is_high l || any_high ls

higher :
    (a b : Risk)
    → is_high (if ltb (severity_score a) (severity_score b) then b else a)
      ≡ (is_high a || is_high b)
unfolding severity_score
higher low low = refl
higher low medium = refl
higher low high = refl
higher medium low = refl
higher medium medium = refl
higher medium high = refl
higher high low = refl
higher high medium = refl
higher high high = refl

or_assoc : (a b c : Bool) → ((a || b) || c) ≡ (a || (b || c))
or_assoc true b c = refl
or_assoc false b c = refl

or_false : (b : Bool) → (b || false) ≡ b
or_false true = refl
or_false false = refl

-- The highest of some levels is high exactly where one of them is.
pub highest_risk-is_high :
    (levels : List Risk) (current : Risk)
    → is_high (highest_risk levels current) ≡ (is_high current || any_high levels)
unfolding highest_risk any_high
highest_risk-is_high [] low = refl
highest_risk-is_high [] medium = refl
highest_risk-is_high [] high = refl
highest_risk-is_high (l ∷ ls) current =
    highest_risk-is_high ls (if ltb (severity_score current) (severity_score l) then l else current)
    ∙ ap (λ b. b || any_high ls) (higher current l)
    ∙ or_assoc (is_high current) (is_high l) (any_high ls)

any_high-nil : any_high [] ≡ false
unfolding any_high
any_high-nil = refl

module _ {ℓ} {A : Type ℓ} where
  abbrev levels : List (Risk × A) → List Risk
  levels fs = map (λ f. f.0) fs

  any_high-append :
      (xs ys : List (Risk × A))
      → any_high (levels (xs ++ ys)) ≡ (any_high (levels xs) || any_high (levels ys))
  unfolding any_high
  any_high-append [] ys = refl
  any_high-append (x ∷ xs) ys =
      ap (λ b. is_high x.0 || b) (any_high-append xs ys)
      ∙ sym (or_assoc (is_high x.0) (any_high (levels xs)) (any_high (levels ys)))

  any_high-when_high :
      (b : Bool) (a : A) (rest : List (Risk × A))
      → any_high (levels (when b (high, a) rest)) ≡ (b || any_high (levels rest))
  unfolding any_high
  any_high-when_high true a rest = refl
  any_high-when_high false a rest = refl

  any_high-when_medium :
      (b : Bool) (a : A) (rest : List (Risk × A))
      → any_high (levels (when b (medium, a) rest)) ≡ any_high (levels rest)
  unfolding any_high
  any_high-when_medium true a rest = refl
  any_high-when_medium false a rest = refl

  any_high-when_low :
      (b : Bool) (a : A) (rest : List (Risk × A))
      → any_high (levels (when b (low, a) rest)) ≡ any_high (levels rest)
  unfolding any_high
  any_high-when_low true a rest = refl
  any_high-when_low false a rest = refl

  any_high-graded :
      (b c : Bool) (a : A)
      → any_high (levels (if b then (high, a) ∷ [] else if c then (medium, a) ∷ [] else [])) ≡ b
  unfolding any_high
  any_high-graded true c a = refl
  any_high-graded false true a = refl
  any_high-graded false false a = refl

  any_high-mild :
      (b c : Bool) (a : A)
      → any_high (levels (if b then (medium, a) ∷ [] else if c then (medium, a) ∷ [] else []))
        ≡ false
  unfolding any_high
  any_high-mild true c a = refl
  any_high-mild false true a = refl
  any_high-mild false false a = refl

any_high-audit_findings :
    (app : App) (k : Cadence) (c : SafetyConfig)
    → any_high (levels (audit_findings app k c)) ≡ (
        ltb k.min_delay_ms 10000
        || ltb 1 k.account_parallelism
        || below c.rate_limit_cooldown_minutes 60)
unfolding audit_findings
any_high-audit_findings app k c =
    simp (
      any_high-when_high, any_high-when_medium, any_high-when_low, any_high-nil, or_false, or_assoc,
    )

-- The audit of the configuration is at high exactly for a minimum delay below ten seconds, more than
-- one account at a time, or a rate-limit cooldown below an hour.
audit_operation_risk-is_high :
    (app : App) (k : Cadence) (c : SafetyConfig)
    → is_high (audit_operation_risk app k c).0 ≡ (
        ltb k.min_delay_ms 10000
        || ltb 1 k.account_parallelism
        || below c.rate_limit_cooldown_minutes 60)
unfolding audit_operation_risk
audit_operation_risk-is_high app k c =
    highest_risk-is_high (levels (audit_findings app k c)) low ∙ any_high-audit_findings app k c

-- The platform itself has objected to the account.
abbrev pub platform_objects : Status → Bool
platform_objects verification_required = true
platform_objects access_restricted = true
platform_objects rate_limited = true
platform_objects login_required = false
platform_objects session_expired = false
platform_objects paused = false
platform_objects cooldown = false
platform_objects healthy = false
platform_objects unknown = false
platform_objects disabled = false

status_sign-is_high : (s : Status) → any_high (levels (status_sign s)) ≡ platform_objects s
unfolding status_sign any_high
status_sign-is_high verification_required = refl
status_sign-is_high access_restricted = refl
status_sign-is_high rate_limited = refl
status_sign-is_high login_required = refl
status_sign-is_high session_expired = refl
status_sign-is_high paused = refl
status_sign-is_high cooldown = refl
status_sign-is_high healthy = refl
status_sign-is_high unknown = refl
status_sign-is_high disabled = refl

failure_sign-is_high : (n limit : ℕ) → any_high (levels (failure_sign n limit)) ≡ leb limit n
unfolding failure_sign
failure_sign-is_high n limit = any_high-graded (leb limit n) (leb 2 n) _

daily_sign-is_high : (n limit : ℕ) → any_high (levels (daily_sign n limit)) ≡ false
unfolding daily_sign
daily_sign-is_high n limit =
    any_high-mild (ltb 0 limit && leb limit n) (ltb 0 limit && leb (4 * limit) (5 * n)) _

hourly_sign-is_high :
    (n limit : ℕ) → any_high (levels (hourly_sign n limit)) ≡ (ltb 0 limit && leb limit n)
unfolding hourly_sign
hourly_sign-is_high n limit =
    any_high-graded (ltb 0 limit && leb limit n) (ltb 0 limit && leb (3 * limit) (4 * n)) _

account_signs-is_high :
    (c : SafetyConfig) (s : AccountState)
    → any_high (levels (account_signs c s)) ≡ (
        platform_objects s.status
        || leb c.max_consecutive_failures s.consecutive_failures
        || (ltb 0 (or_else c.account_hourly_limit 0)
            && leb (or_else c.account_hourly_limit 0) s.runs_last_hour))
unfolding account_signs
account_signs-is_high c s = simp (
  any_high-append, status_sign-is_high, failure_sign-is_high, daily_sign-is_high,
  hourly_sign-is_high, or_false, or_assoc,
)

-- An enabled account is at high exactly where the platform itself has objected to it, its failures in
-- a row have reached their limit, or its runs of the last hour a positive hourly limit. A disabled
-- account is at low, whatever else is known of it.
pub assess_account_risk-is_high :
    (r : Registry) (wall : ℕ → ℕ) (c : SafetyConfig) (now : ℕ) (s : AccountState)
    → (is_high (assess_account_risk r wall c now (some s)).level ≡ (
        s.enabled
        && (platform_objects s.status
            || leb c.max_consecutive_failures s.consecutive_failures
            || (ltb 0 (or_else c.account_hourly_limit 0)
                && leb (or_else c.account_hourly_limit 0) s.runs_last_hour))))
      × (s.enabled ≡ false → (assess_account_risk r wall c now (some s)).level ≡ low)
unfolding assess_account_risk
assess_account_risk-is_high r wall c now s = elim (Bool-cases s.enabled) [
  | inl e ↦ rw e (
    highest_risk-is_high (levels (account_signs c s)) low ∙ account_signs-is_high c s,
    λ off. absurd (true≢false off),
  )
  | inr e ↦ rw e (refl, λ _. refl)
]
