-- ===== src/Tests/Delivery.antt =====
-- The outbox worker and the ERP emulator on a message.
use kosmohack_final.Models.Quality.{Verdict, Disposition, Containment}
use kosmohack_final.Delivery.Worker.Settled.{settle_schedule}
use kosmohack_final.Delivery.Worker.Retry.{process_one-progress, total_left, IsBounded}
use kosmohack_final.Session.{ok, request}
use kosmohack_final.Delivery.Worker.{
  crashed, next_due, acknowledged, is_crash, counted, process_one, http_status, Settings, Tables,
  Outcome, settle,
}
use kosmohack_final.Prelude.{
  ◌++◌, map, ◌↔◌, ◌⊎◌, ◌+◌, refl, arith, false, ◌<◌, some, true, [], none, ◌∷◌, ◌≤◌, ◌≡◌, List,
}
use kosmohack_final.Models.Delivery.{OutboxMessage, ResultPayload, OutboxState}
use kosmohack_final.Delivery.Worker.Rounds.{sent_bounded, Round, sent, crashed_rounds}
use kosmohack_final.Delivery.Emulator.{
  started, behaved, Mode, begun, behavior, delivered, begin, Reachable-IsConsistent, deliver_again,
  initial, IsConsistent, State, deliver,
}

abbrev result : ResultPayload
result = record {
  message_id = 12;
  item_id = 1;
  nonconformance_id = 2;
  decision_id = 11;
  verdict = Verdict.confirmed;
  disposition = Disposition.released;
  containment = Containment.uncontained;
  decided_at = 100;
}

abbrev message : OutboxState → OutboxMessage
message state = record {
  message_id = 12;
  destination = 4;
  payload = result;
  state = state;
  attempts = 1;
  next_attempt_at = 100;
  last_error = none;
  created_at = 100;
  delivered_at = none;
}

abbrev settings : Settings
settings = record { worker_id = 1; outbox_max_attempts = 3 }

abbrev queue : OutboxState → Tables
queue state = record {
  outbox = message state ∷ [];
  messages = [];
  health = [];
  alerts = [];
  heartbeats = [];
}

abbrev unreachable : ResultPayload → Outcome
unreachable p = Outcome.network

queue-IsBounded : (state : OutboxState) → IsBounded 3 (message state ∷ [])
queue-IsBounded state = (λ h. omega arith, refl, tt)

process_one-progress_example :
    let (r, db') = request (process_one 200 210 settings unreachable) (queue OutboxState.pending) in
    ((r ≡ ok true)
      × IsBounded 3 db'.outbox
      × (total_left 3 db'.outbox < total_left 3 (message OutboxState.pending ∷ [])))
    ⊎ ((r ≡ ok false) × (db'.outbox ≡ message OutboxState.pending ∷ []))
process_one-progress_example =
    process_one-progress 200 210 settings unreachable (queue OutboxState.pending)
      (queue-IsBounded OutboxState.pending)

abbrev rounds : List Round
rounds =
    record { now = 200; later = 210; send = unreachable }
    ∷ record { now = 10000000; later = 10000010; send = unreachable }
    ∷ record { now = 90000000; later = 90000010; send = unreachable }
    ∷ []

sent_bounded_example :
    sent settings rounds (queue OutboxState.pending)
    ≤ total_left 3 (message OutboxState.pending ∷ [])
      + crashed_rounds settings rounds (queue OutboxState.pending)
sent_bounded_example =
    sent_bounded settings rounds (queue OutboxState.pending) (queue-IsBounded OutboxState.pending)

-- A message whose call crashes is sent in each round.
crashes_for_ever :
    sent settings
      (map (λ (r : Round). record r { send = λ _. crashed }) (rounds ++ rounds))
      (queue OutboxState.pending)
    ≡ 6
unfolding process_one next_due
crashes_for_ever = refl

settle_schedule_example :
    let m' = settle 210 3 (http_status 503) (counted (message OutboxState.pending)) in
    (is_crash (http_status 503) ≡ false
      → m'.state ≡ OutboxState.retrying
      → (210 < m'.next_attempt_at) × (m'.next_attempt_at ≤ 210 + 300000000))
    × ((m'.state ≡ OutboxState.delivered) ↔ (http_status 503 ≡ acknowledged (some 12) true))
settle_schedule_example = settle_schedule 210 3 (http_status 503) (message OutboxState.pending) refl

abbrev accepted : State
accepted = record initial {
  deliveries =
      record { payload = result; ack = record { message_id = 12; number = 1; received_at = 150 } }
      ∷ [];
}

-- A message that arrives while the emulator delays one.
abbrev delayed_state : State
delayed_state = (begin (behavior Mode.timeout_once initial)).1

Reachable-IsConsistent_example : IsConsistent (deliver 300 result delayed_state).1.deliveries
Reachable-IsConsistent_example = Reachable-IsConsistent (deliver 300 result delayed_state).1 (
    delivered 300 result delayed_state
      (begun (behavior Mode.timeout_once initial) (behaved Mode.timeout_once initial started)))

deliver_again_example :
    let (ack, t) = deliver 300 (record result { message_id = 13 }) accepted in
    (deliver 400 (record result { message_id = 13; decided_at = 5 }) t ≡ (ack, t))
    × (ack.message_id ≡ 13)
deliver_again_example =
    deliver_again 300 400 (record result { message_id = 13 })
      (record result { message_id = 13; decided_at = 5 }) accepted (refl, refl, tt) refl
