-- ===== src/Events/Envelope.antt =====
-- `validate_event` of backend/app/domain/events.py: the event that a JSON value stands for.
use kosmohack_final.Events.Reading.{envelope}
use kosmohack_final.Events.Contract.{read_payload}
use kosmohack_final.Events.{EventEnvelope}
use kosmohack_final.Models.Log.{EventType}
use kosmohack_final.Events.Json.{
  null, array, text, number, boolean, get_or_null, object, Fields, Json,
}
use kosmohack_final.Events.Schema.{Pydantic}
use kosmohack_final.Session.{err, Result, ErrorCode, traceq_error, TraceqError}
use kosmohack_final.Events.Key as Key
use kosmohack_final.Events.Validation.{
  normalize_legacy, event_type_of, is_version_1, exception, is_hashable, schema_error, or_err,
  Python, ◌>>=◌,
}
use kosmohack_final.Prelude.{if◌then◌else◌, not}

abbrev pub invalid_event : TraceqError
invalid_event = traceq_error ErrorCode.invalid_event 422

module _ (py : Python) (p : Pydantic) where
  -- The payload is validated first, and what the model makes of it then stands in the candidate.
  abbrev pub validate_candidate : EventType → Fields → Result EventEnvelope
  validate_candidate event_type candidate = do
    payload ← or_err schema_error (read_payload p event_type (get_or_null Key.payload candidate))
    or_err schema_error (envelope p event_type payload candidate)

  abbrev pub validate_known : EventType → Json → Fields → Result EventEnvelope
  validate_known event_type version value =
      if not (is_hashable version)
      then err exception
      else if not (is_version_1 version)
      then err (traceq_error ErrorCode.unsupported_schema_version 422)
      else normalize_legacy py value >>= validate_candidate event_type

  abbrev pub validate_type : Json → Fields → Result EventEnvelope
  validate_type event_type value = if not (is_hashable event_type) then err exception else (do
    known ← or_err (traceq_error ErrorCode.unsupported_event_type 422) (event_type_of event_type)
    validate_known known (get_or_null Key.schema_version value) value)

  unfoldable pub validate_event : Json → Result EventEnvelope
  validate_event (object value) = validate_type (get_or_null Key.event_type value) value
  validate_event null = err invalid_event
  validate_event (boolean _) = err invalid_event
  validate_event (number _) = err invalid_event
  validate_event (text _) = err invalid_event
  validate_event (array _) = err invalid_event
