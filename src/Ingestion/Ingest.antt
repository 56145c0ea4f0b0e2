-- ===== src/Ingestion/Ingest.antt =====
-- The whole of `ingest_event`, backend/app/ingestion/service.py: authentication, validation, scope,
-- rejected attempts, and the storing. The details of an alert are not modelled.
use kosmohack_final.Ingestion.Store.{store_event}
use kosmohack_final.Events.Envelope.{validate_event}
use kosmohack_final.Security.Integrity.{Primitives}
use kosmohack_final.Events.Schema.{Pydantic}
use kosmohack_final.Events.Validation.{Python}
use kosmohack_final.Events.Json.{
  is_true, array, text, number, null, boolean, get_or_null, object, Json,
}
use kosmohack_final.Events.{
  device_invalidated, action, machine, inspected, finished, started, registered, EventEnvelope,
  Payload,
}
use kosmohack_final.Models.Log.{AttemptStatus, IngestAttempt, AlertType, EventSource, EventType}
use kosmohack_final.Ingestion.Sources.{
  refusal, authenticate_source, Credentials, alert, Settings, Transport,
}
use kosmohack_final.Ingestion.{IngestionResult, Encoding, add_attempt, Tables}
use kosmohack_final.Events.Key as Key
use kosmohack_final.Prelude.{
  if◌then◌else◌, [], contains, ◌&&◌, not, ◌∷◌, update, max, leb, ◌==◌, true, any, false, Bool, ℕ,
  Option, Text, List, some, none,
}
use kosmohack_final.Session.{
  rollback, raise, pure, or_else, lift, commit, raise_if, modify, Action, TraceqError, ErrorCode,
  ◌>>=◌, ◌>>◌,
}

abbrev pub type_code : EventType → ℕ
type_code EventType.control_device_invalidated = 1
type_code EventType.inspection_result = 2
type_code EventType.item_registered = 3
type_code EventType.machine_state = 4
type_code EventType.operation_finished = 5
type_code EventType.operation_started = 6
type_code EventType.operator_action = 7

-- `event_type in allowed_event_types`
abbrev pub is_allowed_type : EventType → List EventType → Bool
is_allowed_type t allowed = any (λ x. type_code x == type_code t) allowed

-- `payload.get("line_id")` and `payload.get("station_id")`
abbrev pub line_of : Payload → Option Text
line_of (registered p) = p.line_id
line_of (started _) = none
line_of (finished _) = none
line_of (inspected _) = none
line_of (machine _) = none
line_of (action _) = none
line_of (device_invalidated _) = none

abbrev pub station_of : Payload → Option Text
station_of (started p) = some p.station_id
station_of (registered _) = none
station_of (finished _) = none
station_of (inspected _) = none
station_of (machine _) = none
station_of (action _) = none
station_of (device_invalidated _) = none

-- `allowed and value not in (None, *allowed)`
abbrev pub is_outside_scope : List Text → Option Text → Bool
is_outside_scope allowed none = false
is_outside_scope [] (some value) = false
is_outside_scope (a ∷ allowed) (some value) = not (contains value (a ∷ allowed))

-- "calibration_system"
abbrev pub calibration_system : Text
calibration_system = 1

abbrev pub is_invalidation : EventType → Bool
is_invalidation t = type_code t == type_code EventType.control_device_invalidated

-- `sequence <= last_source_sequence`, where both are known
abbrev pub is_anomaly : Option ℕ → Option ℕ → Bool
is_anomaly (some n) (some last) = leb n last
is_anomaly (some n) none = false
is_anomaly none last = false

-- `max(last or -1, n)`
abbrev pub later_sequence : Option ℕ → ℕ → ℕ
later_sequence none n = n
later_sequence (some last) n = max last n

abbrev pub count_sequence : Option ℕ → EventSource → EventSource
count_sequence none s = s
count_sequence (some n) s = record s {
  last_source_sequence = some (later_sequence s.last_source_sequence n);
}

abbrev pub save_sequence : EventSource → Option ℕ → Tables → Tables
save_sequence source n db = record db {
  sources = update (λ s. s.source_id == source.source_id) (count_sequence n) db.sources;
}

abbrev pub warn_sequence : EventSource → EventEnvelope → Tables → Tables
warn_sequence source event db =
    if is_anomaly event.sequence source.last_source_sequence
    then alert AlertType.source_sequence_anomaly (some source.source_id) (some event.event_id) db
    else db

-- What the source may send: the first of these tests that fails names the error.
abbrev pub check_scope : EventSource → EventEnvelope → Action Tables (Unit {0})
check_scope source event = do
  raise_if
      (not ((event.source_id == source.source_id) && (event.source_type == source.source_type)))
      (refusal ErrorCode.source_identity_mismatch 403)
  raise_if (not (is_allowed_type event.event_type source.allowed_event_types))
      (refusal ErrorCode.event_type_not_allowed 403)
  raise_if (is_outside_scope source.allowed_line_ids (line_of event.payload))
      (refusal ErrorCode.source_scope_violation 403)
  raise_if (is_outside_scope source.allowed_station_ids (station_of event.payload))
      (refusal ErrorCode.source_scope_violation 403)
  raise_if (is_invalidation event.event_type && not (source.source_type == calibration_system))
      (refusal ErrorCode.source_scope_violation 403)

-- `alert_map`
abbrev pub alert_for : ErrorCode → Option AlertType
alert_for ErrorCode.replay_attempt = some AlertType.replay_attempt
alert_for ErrorCode.source_auth_failed = some AlertType.source_auth_failed
alert_for ErrorCode.invalid_source_credentials = some AlertType.source_auth_failed
alert_for ErrorCode.source_scope_violation = some AlertType.source_scope_violation
alert_for ErrorCode.event_id_conflict = some AlertType.event_id_conflict
alert_for ErrorCode.key_unavailable = some AlertType.key_unavailable
alert_for _ = none

abbrev pub rejected_attempt : Option Text → Option Text → TraceqError → IngestAttempt
rejected_attempt source_id claimed error = record {
  source_id = source_id;
  claimed_event_id = claimed;
  status = AttemptStatus.rejected;
  error_code = some error.code;
  raw_event_id = none;
  payload_hash = none;
}

abbrev pub alert_if : Option AlertType → Option Text → Option Text → Tables → Tables
alert_if none source_id claimed db = db
alert_if (some kind) source_id claimed db = alert kind source_id claimed db

unfoldable pub record_rejected_attempt :
    Option Text → Option Text → TraceqError → Action Tables (Unit {0})
record_rejected_attempt source_id claimed error = do
  modify (add_attempt (rejected_attempt source_id claimed error))
  modify (alert_if (alert_for error.code) source_id claimed)
  commit

abbrev pub claimed_in : Json → Json
claimed_in (object fs) = get_or_null Key.event_id fs
claimed_in null = null
claimed_in (boolean _) = null
claimed_in (number _) = null
claimed_in (text _) = null
claimed_in (array _) = null

-- Only a `TraceQError` is handled; anything else passes through.
abbrev pub is_unexpected : ErrorCode → Bool
is_unexpected ErrorCode.internal_error = true
is_unexpected _ = false

module _ (transport : Transport) (settings : Settings) (py : Python) (pydantic : Pydantic) where
  abbrev pub claimed_id : Json → Option Text
  claimed_id value =
      if is_true (claimed_in value) then some (transport.show (claimed_in value)) else none

  -- The body of the `try`.
  abbrev pub admit_event : ℕ → Credentials → Json → Action Tables EventEnvelope
  admit_event now c value = do
    source ← authenticate_source transport settings now c value
    event ← lift (validate_event py pydantic value)
    check_scope source event
    modify (warn_sequence source event)
    modify (save_sequence source event.sequence)
    pure event

  abbrev pub reject_event : Credentials → Json → TraceqError → Action Tables EventEnvelope
  reject_event c value error =
      if is_unexpected error.code
      then raise error
      else (do rollback; record_rejected_attempt c.source_id (claimed_id value) error; raise error)

  module _ (prims : Primitives) (enc : Encoding) where
    unfoldable pub ingest_event :
        (now ingest_seq : ℕ) → Credentials → Json → Action Tables IngestionResult
    ingest_event now ingest_seq c value = do
      event ← or_else (admit_event now c value) (reject_event c value)
      store_event prims enc now ingest_seq event
