-- ===== src/Tests/Webhook.antt =====
-- Events with two endpoints, of which one fails.
use one_gl.Prelude.{◌==◌, [], ◌∷◌, arith}
use one_gl.Webhook.{WebhookEvent, WebhookTables, queued, delivered, Round, rounds}
use one_gl.Webhook.Endpoints.{AtMostOnce, successes, rounds-AtMostOnce}

abbrev event : WebhookEvent
event = record { id = 1; status = queued; attempts = 3; next_attempt_at = 100 }

abbrev first_round : Round
first_round = record { now = 100; later = 105; endpoints = 4 ∷ 6 ∷ []; answers = λ ep. ep == 4 }

abbrev second_round : Round
second_round = record {
  now = 30000;
  later = 30001;
  endpoints = 4 ∷ 6 ∷ [];
  answers = λ ep. ep == 4;
}

abbrev third_round : Round
third_round = record { now = 60000; later = 60001; endpoints = 4 ∷ []; answers = λ ep. ep == 4 }

-- Two open events, with two attempts and one left, and one that is over.
abbrev tables : WebhookTables
tables = record {
  events =
      event
      ∷ record { id = 2; status = delivered; attempts = 1; next_attempt_at = 0 }
      ∷ record { id = 3; status = queued; attempts = 4; next_attempt_at = 20 }
      ∷ [];
  deliveries = [];
}

no_deliveries : AtMostOnce []
unfolding successes
no_deliveries event_id endpoint_id = omega arith

rounds-AtMostOnce_example :
    AtMostOnce (rounds 5 (first_round ∷ second_round ∷ []) tables).deliveries
rounds-AtMostOnce_example =
    rounds-AtMostOnce 5 (first_round ∷ second_round ∷ []) tables no_deliveries
