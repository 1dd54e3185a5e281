-- ===== src/Webhook/Endpoints.antt =====
-- What the endpoints get of an event (src/webhook-worker.js).
use one_gl.Prelude.{
  ℕ, ◌+◌, ◌≤◌, ◌≡◌, refl, subst, Bool, true, false, ◌&&◌, Option, none, some, List, [], ◌∷◌,
  if◌then◌else◌, ◌==◌, sum_by, arith, Bool-cases, inl, inr, All,
}
use one_gl.Webhook.{
  WebhookEvent, Delivery, already_delivered, deliver, deliver_all, WebhookTables, process_event,
  Round, process_found, claim_event, round, rounds,
}

-- How often an endpoint got an event.
abbrev pub is_success : ℕ → ℕ → Delivery → Bool
is_success event_id endpoint_id d =
    d.event_id == event_id && (d.endpoint_id == endpoint_id && d.success)

unfoldable pub successes : ℕ → ℕ → List Delivery → ℕ
successes event_id endpoint_id = sum_by (λ d. if is_success event_id endpoint_id d then 1 else 0)

abbrev pub AtMostOnce : List Delivery → Type 0
AtMostOnce ds = (event_id endpoint_id : ℕ) → successes event_id endpoint_id ds ≤ 1

already_delivered-successes :
    (event_id endpoint_id : ℕ) (ds : List Delivery)
    → already_delivered event_id endpoint_id ds ≡ false
    → successes event_id endpoint_id ds ≡ 0
unfolding already_delivered successes
already_delivered-successes event_id endpoint_id [] h = refl
already_delivered-successes event_id endpoint_id (d ∷ ds) h =
    ground (arith, h, already_delivered-successes event_id endpoint_id ds)

deliver-AtMostOnce :
    (answers : ℕ → Bool) (e : WebhookEvent) (endpoint : ℕ) (ds : List Delivery)
    → AtMostOnce ds
    → AtMostOnce (deliver answers e endpoint ds).1
unfolding deliver successes
deliver-AtMostOnce answers e endpoint ds once event_id endpoint_id =
    elim (Bool-cases (already_delivered e.id endpoint ds)) [
      | inl h ↦ rw h (once event_id endpoint_id)
      | inr h ↦ rw h (added (already_delivered-successes e.id endpoint ds h))
    ]
  where
    added :
        successes e.id endpoint ds ≡ 0
        → (if e.id == event_id && (endpoint == endpoint_id && answers endpoint) then 1 else 0)
            + successes event_id endpoint_id ds
          ≤ 1
    added none_yet =
        let same : e.id ≡ event_id
            → endpoint ≡ endpoint_id
            → successes event_id endpoint_id ds ≡ 0 =
          λ p q.
            subst (λ i. successes i endpoint_id ds ≡ 0) p
              (subst (λ j. successes e.id j ds ≡ 0) q none_yet) in
        let most : successes event_id endpoint_id ds ≤ 1 = once event_id endpoint_id in
        grind (arith, same, most)

deliver_all-AtMostOnce :
    (answers : ℕ → Bool) (e : WebhookEvent) (endpoints : List ℕ) (ds : List Delivery)
    → AtMostOnce ds
    → AtMostOnce (deliver_all answers e endpoints ds).1
unfolding deliver_all
deliver_all-AtMostOnce answers e [] ds once = once
deliver_all-AtMostOnce answers e (endpoint ∷ endpoints) ds once =
    deliver_all-AtMostOnce answers e endpoints (deliver answers e endpoint ds).1
      (deliver-AtMostOnce answers e endpoint ds once)

round-AtMostOnce :
    (max_attempts : ℕ) (r : Round) (w : WebhookTables)
    → AtMostOnce w.deliveries
    → AtMostOnce (round max_attempts r w).deliveries
unfolding round process_event
round-AtMostOnce max_attempts r w once = after (claim_event max_attempts r.now w.events)
  where
    after :
        (c : Option WebhookEvent × List WebhookEvent)
        → AtMostOnce (process_found max_attempts r w.deliveries c).deliveries
    after (none, es) = once
    after (some e, es) = deliver_all-AtMostOnce r.answers e r.endpoints w.deliveries once

-- However many rounds one worker makes, and whatever the endpoints answer: the deliveries never hold more
-- than one success of an event at an endpoint, if they held no more at the start.
pub rounds-AtMostOnce :
    (max_attempts : ℕ) (rs : List Round) (w : WebhookTables)
    → AtMostOnce w.deliveries
    → AtMostOnce (rounds max_attempts rs w).deliveries
unfolding rounds
rounds-AtMostOnce max_attempts [] w once = once
rounds-AtMostOnce max_attempts (r ∷ rs) w once =
    rounds-AtMostOnce max_attempts rs (round max_attempts r w)
      (round-AtMostOnce max_attempts r w once)

-- An endpoint that has an event keeps it.
deliver-keeps :
    (answers : ℕ → Bool) (e : WebhookEvent) (endpoint id ep : ℕ) (ds : List Delivery)
    → already_delivered id ep ds ≡ true
    → already_delivered id ep (deliver answers e endpoint ds).1 ≡ true
unfolding deliver
deliver-keeps answers e endpoint id ep ds h =
    elim (Bool-cases (already_delivered e.id endpoint ds)) [
      | inl k ↦ rw k h
      | inr k ↦ rw k (ground (arith, h))
    ]

deliver_all-keeps :
    (answers : ℕ → Bool) (e : WebhookEvent) (endpoints : List ℕ) (id ep : ℕ) (ds : List Delivery)
    → already_delivered id ep ds ≡ true
    → already_delivered id ep (deliver_all answers e endpoints ds).1 ≡ true
unfolding deliver_all
deliver_all-keeps answers e [] id ep ds h = h
deliver_all-keeps answers e (endpoint ∷ endpoints) id ep ds h =
    deliver_all-keeps answers e endpoints id ep (deliver answers e endpoint ds).1
      (deliver-keeps answers e endpoint id ep ds h)

deliver-has :
    (answers : ℕ → Bool) (e : WebhookEvent) (endpoint : ℕ) (ds : List Delivery)
    → (deliver answers e endpoint ds).0 ≡ true
    → already_delivered e.id endpoint (deliver answers e endpoint ds).1 ≡ true
unfolding deliver
deliver-has answers e endpoint ds h = elim (Bool-cases (already_delivered e.id endpoint ds)) [
  | inl k ↦ rw k k
  | inr k ↦ let answered : answers endpoint ≡ true = rw k at h in rw (k, answered) (ground arith)
]

and_parts : (p q : Bool) → p && q ≡ true → (p ≡ true) × (q ≡ true)
and_parts true q h = (refl, h)
and_parts false q h = cc

-- An event is taken for delivered only when every endpoint has it, from this attempt or an earlier one.
deliver_all-has :
    (answers : ℕ → Bool) (e : WebhookEvent) (endpoints : List ℕ) (ds : List Delivery)
    → let (all_ok, ds') = deliver_all answers e endpoints ds in
      all_ok ≡ true → All (λ endpoint. already_delivered e.id endpoint ds' ≡ true) endpoints
unfolding deliver_all
deliver_all-has answers e [] ds h = tt
deliver_all-has answers e (endpoint ∷ endpoints) ds h =
    let both = and_parts (deliver answers e endpoint ds).0 _ h in
    (
      deliver_all-keeps answers e endpoints e.id endpoint (deliver answers e endpoint ds).1
          (deliver-has answers e endpoint ds both.0),
      deliver_all-has answers e endpoints (deliver answers e endpoint ds).1 both.1,
    )
