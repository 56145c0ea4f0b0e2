-- ===== src/Delivery/Worker.antt =====
-- worker/main.py: `process_one`, one round of the outbox worker. What the adapter's call of the
-- external system comes to is a function of the payload that is sent; the time is read once
-- before the call (`now`) and once after it (`later`).
pub mod Retry
pub mod Settled
pub mod Rounds
use kosmohack_final.Prelude.{
  ◌*◌, ◌^◌, ltb, ◌++◌, leb, ◌||◌, [], opt_eq, true, select, some, ◌==◌, ◌∷◌, ◌&&◌, false,
  if◌then◌else◌, update, ℕ, List, none, Bool, Option, Text,
}
use kosmohack_final.Models.Delivery.{
  OutboxMessage, OutboxState, LastError, IntegrationMessage, IntegrationHealth, HealthStatus,
  WorkerHeartbeat, ResultPayload,
}
use kosmohack_final.Models.Log.{SecurityAlert, AlertType}
use kosmohack_final.Session.{Action, gets, pure, modify, commit, rollback, ◌>>=◌, ◌>>◌}
use Prim.Native.Nat.{ℕ, ◌+◌, min}

pub record Tables : Type 0 where
  pub outbox : List OutboxMessage
  pub messages : List IntegrationMessage
  pub health : List IntegrationHealth
  pub alerts : List SecurityAlert
  pub heartbeats : List WorkerHeartbeat

pub record Settings : Type 0 where
  pub worker_id : Text
  pub outbox_max_attempts : ℕ

-- The ways in which `send_quality_result` ends: an acknowledgement (its message id, and whether
-- its status is ACK), an answer that is no JSON, an HTTP error status, a timeout, a network error,
-- or any other exception.
pub data Outcome : Type 0 where
  acknowledged : Option Text → Bool → Outcome
  not_json : Outcome
  http_status : ℕ → Outcome
  timeout network : Outcome
  crashed : Outcome

-- `state.in_(["PENDING", "RETRYING"])`
abbrev pub is_open : OutboxState → Bool
is_open OutboxState.pending = true
is_open OutboxState.retrying = true
is_open OutboxState.delivered = false
is_open OutboxState.failed = false

abbrev pub is_due : ℕ → OutboxMessage → Bool
is_due now m = is_open m.state && leb m.next_attempt_at now

-- `order_by(created_at).limit(1)`
pub earliest : OutboxMessage → List OutboxMessage → OutboxMessage
earliest best [] = best
earliest best (m ∷ rest) = earliest (if ltb m.created_at best.created_at then m else best) rest

pub first_created : List OutboxMessage → Option OutboxMessage
first_created [] = none
first_created (m ∷ rest) = some (earliest m rest)

unfoldable pub next_due : ℕ → List OutboxMessage → Option OutboxMessage
unfolding earliest first_created
next_due now messages = first_created (select (is_due now) messages)

-- `_heartbeat`
pub beat : Text → ℕ → List WorkerHeartbeat → List WorkerHeartbeat
beat id now [] = record { worker_id = id; heartbeat_at = now; status = HealthStatus.healthy } ∷ []
beat id now (row ∷ rows) =
    if row.worker_id == id
    then record row { heartbeat_at = now; status = HealthStatus.healthy } ∷ rows
    else row ∷ beat id now rows

-- `min(2 ** attempts, 300)` seconds, in microseconds
pub backoff : ℕ → ℕ
backoff attempts = min (2 ^ attempts) 300 * 1000000

abbrev pub retryable : ℕ → Bool
retryable status = (status == 408) || ((status == 429) || leb 500 status)

-- `"RETRYING" if … and message.attempts < settings.outbox_max_attempts else "FAILED"`
abbrev pub retry_state : Bool → OutboxState
retry_state true = OutboxState.retrying
retry_state false = OutboxState.failed

abbrev pub is_retrying : OutboxState → Bool
is_retrying OutboxState.retrying = true
is_retrying OutboxState.pending = false
is_retrying OutboxState.delivered = false
is_retrying OutboxState.failed = false

-- `message.message_id == ack["message_id"]` and the status is ACK
abbrev pub matches : OutboxMessage → Option Text → Bool → Bool
matches m id is_ack = opt_eq id (some m.message_id) && is_ack

-- The message after the call, its attempts already counted.
unfoldable pub settle : (later limit : ℕ) → Outcome → OutboxMessage → OutboxMessage
unfolding backoff
settle later limit (acknowledged id is_ack) m =
    if matches m id is_ack
    then record m { state = OutboxState.delivered; delivered_at = some later; last_error = none }
    else record m { state = OutboxState.failed; last_error = some LastError.correlation_mismatch }
settle later limit not_json m = record m {
  state = OutboxState.failed;
  last_error = some LastError.invalid_json;
}
settle later limit (http_status status) m =
    let state = retry_state (retryable status && ltb m.attempts limit) in
    record m {
      state = state;
      last_error = some (LastError.http status);
      next_attempt_at = if is_retrying state then later + backoff m.attempts else m.next_attempt_at;
    }
settle later limit timeout m = record m {
  state = retry_state (ltb m.attempts limit);
  last_error = some LastError.timeout_exception;
  next_attempt_at = later + backoff m.attempts;
}
settle later limit network m = record m {
  state = retry_state (ltb m.attempts limit);
  last_error = some LastError.network_error;
  next_attempt_at = later + backoff m.attempts;
}
settle later limit crashed m = m

abbrev pub alert_of : OutboxMessage → SecurityAlert
alert_of m = record {
  alert_type = AlertType.invalid_ack;
  source_id = none;
  target_id = some m.message_id;
}

-- An acknowledgement of another message raises an alert.
abbrev pub alerts_of : Outcome → OutboxMessage → List SecurityAlert
alerts_of (acknowledged id is_ack) m = if matches m id is_ack then [] else alert_of m ∷ []
alerts_of not_json m = []
alerts_of (http_status _) m = []
alerts_of timeout m = []
alerts_of network m = []
alerts_of crashed m = []

abbrev pub is_delivered : OutboxState → Bool
is_delivered OutboxState.delivered = true
is_delivered OutboxState.pending = false
is_delivered OutboxState.retrying = false
is_delivered OutboxState.failed = false

abbrev pub heal : Text → ℕ → List IntegrationHealth → List IntegrationHealth
heal id later rows =
    update (λ (h : IntegrationHealth). h.integration_id == id)
      (λ h. record h {
        status = HealthStatus.healthy;
        last_success_at = some later;
        safe_error = none;
      })
      rows

abbrev pub log_of : OutboxMessage → IntegrationMessage
log_of m = record { message_id = m.message_id; external_system = m.destination; status = m.state }

-- What is written of a message after the call.
abbrev pub record_outcome : ℕ → Outcome → OutboxMessage → Tables → Tables
record_outcome later outcome m db = record db {
  outbox = update (λ (x : OutboxMessage). x.message_id == m.message_id) (λ _. m) db.outbox;
  messages = db.messages ++ log_of m ∷ [];
  alerts = db.alerts ++ alerts_of outcome m;
  health = if is_delivered m.state then heal m.destination later db.health else db.health;
}

abbrev pub is_crash : Outcome → Bool
is_crash crashed = true
is_crash (acknowledged _ _) = false
is_crash not_json = false
is_crash (http_status _) = false
is_crash timeout = false
is_crash network = false

abbrev pub counted : OutboxMessage → OutboxMessage
counted m = record m { attempts = m.attempts + 1 }

unfoldable pub process_one :
    (now later : ℕ) → Settings → (send : ResultPayload → Outcome) → Action Tables Bool
unfolding beat
process_one now later settings send = do
  message ← gets (λ db. next_due now db.outbox)
  modify (λ db. record db { heartbeats = beat settings.worker_id now db.heartbeats })
  elim message [
    | none ↦ (do commit; pure false)
    | some m ↦
        (let outcome = send m.payload in
          if is_crash outcome then (do rollback; pure false) else (do
            modify (
                record_outcome later outcome
                  (settle later settings.outbox_max_attempts outcome (counted m)))
            commit
            pure true))
  ]
