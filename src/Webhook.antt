-- ===== src/Webhook.antt =====
-- The webhook worker (src/webhook-worker.js): `claimEvent`, `deliver`, `backoffSeconds`, `processEvent` and
-- a round of `loop`. The table of events is in the order of its ids, times are in seconds, and what an
-- endpoint answers is a parameter. A worker that dies stops between two of these calls.
pub mod Endpoints
pub mod Backoff
pub mod Rounds
pub mod Claims
use one_gl.Prelude.{
  ℕ, zero, suc, ◌+◌, ◌-◌, Bool, true, false, ◌&&◌, ◌||◌, not, Option, none, some, List, [], ◌∷◌,
  ◌++◌, if◌then◌else◌, ltb, leb, ◌==◌, get_or, min,
}

pub data EventStatus : Type 0 where
  queued delivering delivered failed : EventStatus

pub record WebhookEvent : Type 0 where
  pub id : ℕ
  pub status : EventStatus
  pub attempts : ℕ
  pub next_attempt_at : ℕ

-- A row of service_webhook_deliveries.
pub record Delivery : Type 0 where
  pub event_id : ℕ
  pub endpoint_id : ℕ
  pub attempt : ℕ
  pub success : Bool

abbrev pub is_open : EventStatus → Bool
is_open queued = true
is_open delivering = true
is_open delivered = false
is_open failed = false

unfoldable pub is_claimable : ℕ → ℕ → WebhookEvent → Bool
is_claimable max_attempts now e =
    is_open e.status && (leb e.next_attempt_at now && ltb e.attempts max_attempts)

abbrev pub claimed : WebhookEvent → WebhookEvent
claimed e = record e { status = delivering; attempts = suc e.attempts }

abbrev pub behind :
    WebhookEvent → Option WebhookEvent × List WebhookEvent → Option WebhookEvent × List WebhookEvent
behind e (found, es) = (found, e ∷ es)

-- The event that is claimed, as it is then, and the table.
unfoldable pub claim_event : ℕ → ℕ → List WebhookEvent → Option WebhookEvent × List WebhookEvent
unfolding is_claimable
claim_event max_attempts now [] = (none, [])
claim_event max_attempts now (e ∷ es) =
    let rest = claim_event max_attempts now es in
    if is_claimable max_attempts now e then (some (claimed e), claimed e ∷ es) else behind e rest

unfoldable pub already_delivered : ℕ → ℕ → List Delivery → Bool
already_delivered event_id endpoint_id [] = false
already_delivered event_id endpoint_id (d ∷ ds) =
    (d.event_id == event_id && (d.endpoint_id == endpoint_id && d.success))
    || already_delivered event_id endpoint_id ds

-- Whether the endpoint has the event, and the rows.
unfoldable pub deliver : (ℕ → Bool) → WebhookEvent → ℕ → List Delivery → Bool × List Delivery
unfolding already_delivered
deliver answers e endpoint ds = if already_delivered e.id endpoint ds then (true, ds) else (
  answers endpoint,
  record {
    event_id = e.id;
    endpoint_id = endpoint;
    attempt = e.attempts;
    success = answers endpoint;
  }
      ∷ ds,
)

-- The endpoints one after the other: whether all have the event, and the rows.
unfoldable pub deliver_all :
    (ℕ → Bool) → WebhookEvent → List ℕ → List Delivery → Bool × List Delivery
unfolding deliver
deliver_all answers e [] ds = (true, ds)
deliver_all answers e (endpoint ∷ endpoints) ds =
    let (ok, ds') = deliver answers e endpoint ds in
    let (all_ok, ds'') = deliver_all answers e endpoints ds' in (ok && all_ok, ds'')

-- The index is held to the table's bounds.
unfoldable pub backoff_seconds : ℕ → ℕ
backoff_seconds attempt = get_or (60 ∷ 300 ∷ 1800 ∷ 7200 ∷ 21600 ∷ []) (min 4 (attempt - 1)) 21600

unfoldable pub settle : ℕ → ℕ → WebhookEvent → Bool → WebhookEvent → WebhookEvent
unfolding backoff_seconds
settle max_attempts now e all_ok row =
    if all_ok
    then record row { status = delivered }
    else if leb max_attempts e.attempts
    then record row { status = failed }
    else record row { status = queued; next_attempt_at = now + backoff_seconds e.attempts }

unfoldable pub update_event :
    ℕ → (WebhookEvent → WebhookEvent) → List WebhookEvent → List WebhookEvent
update_event id f [] = []
update_event id f (e ∷ es) = (if e.id == id then f e else e) ∷ update_event id f es

pub record WebhookTables : Type 0 where
  pub events : List WebhookEvent
  pub deliveries : List Delivery

-- `now` is the time at the end. The event is as it was when it was claimed.
unfoldable pub process_event :
    ℕ → ℕ → (ℕ → Bool) → List ℕ → WebhookEvent → WebhookTables → WebhookTables
unfolding deliver_all settle update_event
process_event max_attempts now answers endpoints e w =
    let (all_ok, ds) = deliver_all answers e endpoints w.deliveries in
    record {
      events = update_event e.id (settle max_attempts now e all_ok) w.events;
      deliveries = ds;
    }

-- A round of one worker: claim at `now`, and end at `later`. What is found is processed.
pub record Round : Type 0 where
  pub now : ℕ
  pub later : ℕ
  pub endpoints : List ℕ
  pub answers : ℕ → Bool

abbrev pub process_found :
    ℕ → Round → List Delivery → Option WebhookEvent × List WebhookEvent → WebhookTables
process_found max_attempts r ds (none, es) = record { events = es; deliveries = ds }
process_found max_attempts r ds (some e, es) =
    process_event max_attempts r.later r.answers r.endpoints e
      (record { events = es; deliveries = ds })

unfoldable pub round : ℕ → Round → WebhookTables → WebhookTables
unfolding claim_event process_event
round max_attempts r w =
    process_found max_attempts r w.deliveries (claim_event max_attempts r.now w.events)

unfoldable pub rounds : ℕ → List Round → WebhookTables → WebhookTables
unfolding round
rounds max_attempts [] w = w
rounds max_attempts (r ∷ rs) w = rounds max_attempts rs (round max_attempts r w)
