-- ===== src/Webhook/Claims.antt =====
-- What a claim of src/webhook-worker.js does and does not keep other workers from.
use one_gl.Prelude.{
  ℕ, suc, ◌+◌, ◌-◌, ◌<◌, ◌≡◌, refl, ap, Bool, true, Option, none, some, List, [], ◌∷◌, sum_by,
  arith, Bool-cases, inl, inr,
}
use mathlib.Core.Option.{some-injective}
use one_gl.Webhook.{
  WebhookEvent, is_claimable, claimed, claim_event, update_event, settle, WebhookTables,
  deliver_all, process_event, Round, process_found, round, rounds,
}

claimed-is_claimable :
    (max_attempts now : ℕ) (e : WebhookEvent)
    → is_claimable max_attempts now e ≡ true
    → suc e.attempts < max_attempts
    → is_claimable max_attempts now (claimed e) ≡ true
unfolding is_claimable
claimed-is_claimable max_attempts now e h low = ground (arith, h)

-- An event that is claimed stays claimable at the same time for every other worker, until its last attempt:
-- the claim moves neither its time nor its status out of what the statement looks for.
claim_event-again :
    (max_attempts now : ℕ) (es : List WebhookEvent) (e : WebhookEvent)
    → (claim_event max_attempts now es).0 ≡ some e
    → e.attempts < max_attempts
    → (claim_event max_attempts now (claim_event max_attempts now es).1).0 ≡ some (claimed e)
unfolding claim_event
claim_event-again max_attempts now [] e h low = cc
claim_event-again max_attempts now (d ∷ es) e h low =
    elim (Bool-cases (is_claimable max_attempts now d)) [
      | inl c ↦
          let first : claimed d ≡ e = some-injective (claimed d) e (rw c at h) in
          let again =
            claimed-is_claimable max_attempts now d c (omega (arith, ap (λ x. x.attempts) first)) in
          rw (c, again) (ap (λ x. some (claimed x)) first)
      | inr c ↦ rw c (rw c (claim_event-again max_attempts now es e (rw c at h) low))
    ]

-- How many attempts are left.
abbrev pub left_of : ℕ → WebhookEvent → ℕ
left_of max_attempts e = max_attempts - e.attempts

attempts_left : ℕ → List WebhookEvent → ℕ
attempts_left max_attempts = sum_by (left_of max_attempts)

abbrev pub found_one : Option WebhookEvent → ℕ
found_one none = 0
found_one (some e) = 1

-- How many rounds find an event.
unfoldable pub claims : ℕ → List Round → WebhookTables → ℕ
unfolding claim_event round
claims max_attempts [] w = 0
claims max_attempts (r ∷ rs) w =
    found_one (claim_event max_attempts r.now w.events).0
    + claims max_attempts rs (round max_attempts r w)

claim_event-attempts_left :
    (max_attempts now : ℕ) (es : List WebhookEvent)
    → found_one (claim_event max_attempts now es).0
        + attempts_left max_attempts (claim_event max_attempts now es).1
      ≡ attempts_left max_attempts es
unfolding claim_event attempts_left is_claimable
claim_event-attempts_left max_attempts now [] = refl
claim_event-attempts_left max_attempts now (e ∷ es) =
    elim (Bool-cases (is_claimable max_attempts now e)) [
      | inl c ↦ rw c (ground (arith, c))
      | inr c ↦ rw c (omega (arith, claim_event-attempts_left max_attempts now es))
    ]

settle-attempts :
    (max_attempts now : ℕ) (e : WebhookEvent) (ok : Bool) (row : WebhookEvent)
    → (settle max_attempts now e ok row).attempts ≡ row.attempts
unfolding settle
settle-attempts max_attempts now e ok row = ground arith

update_event-attempts_left :
    (max_attempts id : ℕ) (f : WebhookEvent → WebhookEvent) (es : List WebhookEvent)
    → ((e : WebhookEvent) → (f e).attempts ≡ e.attempts)
    → attempts_left max_attempts (update_event id f es) ≡ attempts_left max_attempts es
unfolding update_event attempts_left
update_event-attempts_left max_attempts id f [] h = refl
update_event-attempts_left max_attempts id f (e ∷ es) h =
    ground (arith, h e, update_event-attempts_left max_attempts id f es h)

round-attempts_left :
    (max_attempts : ℕ) (r : Round) (w : WebhookTables)
    → found_one (claim_event max_attempts r.now w.events).0
        + attempts_left max_attempts (round max_attempts r w).events
      ≡ attempts_left max_attempts w.events
unfolding round process_event
round-attempts_left max_attempts r w =
    after (claim_event max_attempts r.now w.events)
      (claim_event-attempts_left max_attempts r.now w.events)
  where
    after :
        (c : Option WebhookEvent × List WebhookEvent)
        → found_one c.0 + attempts_left max_attempts c.1 ≡ attempts_left max_attempts w.events
        → found_one c.0
            + attempts_left max_attempts (process_found max_attempts r w.deliveries c).events
          ≡ attempts_left max_attempts w.events
    after (none, es) h = h
    after (some e, es) h =
        let ok = (deliver_all r.answers e r.endpoints w.deliveries).0 in
        let kept =
          update_event-attempts_left max_attempts e.id (settle max_attempts r.later e ok) es
            (settle-attempts max_attempts r.later e ok) in
        omega (arith, h, kept)

-- However long a worker runs: its rounds that find an event are as many as the attempts that they use up,
-- so no more than were left at the start.
claims-attempts_left :
    (max_attempts : ℕ) (rs : List Round) (w : WebhookTables)
    → claims max_attempts rs w + attempts_left max_attempts (rounds max_attempts rs w).events
      ≡ attempts_left max_attempts w.events
unfolding claims rounds
claims-attempts_left max_attempts [] w = omega arith
claims-attempts_left max_attempts (r ∷ rs) w = omega (
  arith,
  round-attempts_left max_attempts r w,
  claims-attempts_left max_attempts rs (round max_attempts r w),
)
