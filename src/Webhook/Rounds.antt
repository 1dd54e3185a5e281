-- ===== src/Webhook/Rounds.antt =====
-- The events of src/webhook-worker.js come to an end.
use one_gl.Prelude.{
  ℕ, ◌+◌, ◌-◌, ◌≤◌, ◌<◌, ◌≡◌, map, Option, none, some, if◌then◌else◌, Bool, true, false, List, [],
  ◌∷◌, ◌==◌, All,
}
use one_gl.Webhook.{WebhookEvent, update_event, settle, Round, is_open}

-- Each round begins six hours after the last one ended, or later.
abbrev pub InTime : ℕ → List Round → Type 0
InTime t [] = Unit
InTime t (r ∷ rs) = (t ≤ r.now) × ((r.now ≤ r.later) × InTime (r.later + 21600) rs)

abbrev pub IsOver : List WebhookEvent → Type 0
IsOver es = All (λ e. is_open e.status ≡ false) es

abbrev pub ids : List WebhookEvent → List ℕ
ids es = map (λ (e : WebhookEvent). e.id) es

abbrev pub Fresh : ℕ → List ℕ → Type 0
Fresh n ks = All (λ k. (k == n) ≡ false) ks

abbrev pub Distinct : List ℕ → Type 0
Distinct [] = Unit
Distinct (k ∷ ks) = Fresh k ks × Distinct ks

-- An open event has an attempt left and is due at `t`.
abbrev pub IsDue : ℕ → ℕ → WebhookEvent → Type 0
IsDue max_attempts t e =
    is_open e.status ≡ true → (e.attempts < max_attempts) × (e.next_attempt_at ≤ t)

-- The attempts that an event, and the open events of a table, have left.
abbrev pub left_of : ℕ → WebhookEvent → ℕ
left_of max_attempts e = if is_open e.status then max_attempts - e.attempts else 0

abbrev pub attempts_left : ℕ → List WebhookEvent → ℕ
attempts_left max_attempts [] = 0
attempts_left max_attempts (e ∷ es) = left_of max_attempts e + attempts_left max_attempts es

module _ (max_attempts : ℕ) where
  module _ (now later : ℕ) where
    -- What a claim, and the end of the attempt at `later`, make of a table: nothing where no event is
    -- open; or one attempt less is left, whatever the endpoints answer.
    abbrev Settles : List WebhookEvent → Option WebhookEvent × List WebhookEvent → Type 0
    Settles es (none, es') = (es' ≡ es) × IsOver es
    Settles es (some e, es') =
        ((ok : Bool)
          → let es'' = update_event e.id (settle max_attempts later e ok) es' in
            (attempts_left max_attempts es'' < attempts_left max_attempts es)
            × (All (IsDue max_attempts (later + 21600)) es'' × (ids es'' ≡ ids es)))
        × ((n : ℕ) → Fresh n (ids es) → (n == e.id) ≡ false)
