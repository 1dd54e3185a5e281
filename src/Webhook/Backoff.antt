-- ===== src/Webhook/Backoff.antt =====
-- How an attempt leaves an event of src/webhook-worker.js.
use one_gl.Prelude.{
  ℕ, zero, suc, ◌+◌, ◌-◌, ◌≤◌, ◌<◌, ◌≡◌, refl, Bool, true, false, [], ◌∷◌, leb, arith, Bool-cases,
  inl, inr, ◌⊎◌, get_or, min,
}
use one_gl.Webhook.{WebhookEvent, backoff_seconds, settle, is_open}

backoff-at : (i : ℕ) → i ≤ 4 → get_or (60 ∷ 300 ∷ 1800 ∷ 7200 ∷ 21600 ∷ []) i 21600 ≤ 21600
backoff-at zero h = omega arith
backoff-at (suc zero) h = omega arith
backoff-at (suc (suc zero)) h = omega arith
backoff-at (suc (suc (suc zero))) h = omega arith
backoff-at (suc (suc (suc (suc zero)))) h = omega arith
backoff-at (suc (suc (suc (suc (suc i))))) h = absurd (omega arith)

backoff_seconds-le : (attempt : ℕ) → backoff_seconds attempt ≤ 21600
unfolding backoff_seconds
backoff_seconds-le attempt = backoff-at (min 4 (attempt - 1)) (omega arith)

-- How an attempt leaves the event: it is over, or it is due again in six hours with an attempt left.
pub settle-cases :
    (max_attempts now : ℕ) (e : WebhookEvent) (ok : Bool)
    → let e' = settle max_attempts now e ok e in
      (is_open e'.status ≡ false)
      ⊎ ((is_open e'.status ≡ true)
          × ((e'.attempts ≡ e.attempts)
              × ((e.attempts < max_attempts) × (e'.next_attempt_at ≤ now + 21600))))
unfolding settle
settle-cases max_attempts now e true = inl refl
settle-cases max_attempts now e false = elim (Bool-cases (leb max_attempts e.attempts)) [
  | inl h ↦ rw h (inl refl)
  | inr h ↦ rw h (inr (refl, (refl, (ground arith, omega (arith, backoff_seconds-le e.attempts)))))
]

pub settle-id :
    (max_attempts later : ℕ) (e : WebhookEvent) (ok : Bool)
    → (settle max_attempts later e ok e).id ≡ e.id
unfolding settle
settle-id max_attempts later e true = refl
settle-id max_attempts later e false = ground arith
