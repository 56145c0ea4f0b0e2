-- ===== src/Events.antt =====
-- The events that the program takes in: shared_contracts/generated/events.py and the envelope of
-- backend/app/domain/events.py. Free-form `parameters` are not modelled.
pub mod Json
pub mod Key
pub mod Schema
pub mod Contract
pub mod Validation
pub mod Reading
pub mod Envelope
pub mod Valid
use kosmohack_final.Prelude.{
  ltb, if◌then◌else◌, ◌*◌, ℕ, Text, Option, none, some, List, Bool, [], ◌∷◌,
}
use kosmohack_final.Models.Log.{EventType}
use kosmohack_final.Quality.Records.{
  InspectionPayload, RunReason, CompletionStatus, Duration, DurationUnit,
}

pub record ItemRegisteredPayload : Type 0 where
  pub product_definition_id : Text
  pub revision : Text
  pub line_id : Option Text
  pub route_id : Option Text
  pub route_revision : Option ℕ

pub record OperationStartedPayload : Type 0 where
  pub operation_id : Text
  pub operator_id : Text
  pub equipment_id : Text
  pub station_id : Text
  pub previous_operation_run_id : Option Text
  pub run_reason : RunReason
  pub rework_for_nonconformance_id : Option Text

pub record OperationFinishedPayload : Type 0 where
  pub completion_status : CompletionStatus
  pub duration : Option Duration
  pub stop_reason : Option Text

pub record MachineStatePayload : Type 0 where
  pub equipment_id : Text
  pub state : Text
  pub code : Option Text

pub record OperatorActionPayload : Type 0 where
  pub operator_id : Text
  pub action_type : Text

-- `ControlDeviceInvalidatedPayload`
pub record Invalidation : Type 0 where
  pub device_id : Text
  pub affected_from : ℕ
  pub affected_to : ℕ
  pub reason : Text
  pub invalidation_type : Option Text
  pub supporting_evidence_refs : List Text

pub data Payload : Type 0 where
  registered : ItemRegisteredPayload → Payload
  started : OperationStartedPayload → Payload
  finished : OperationFinishedPayload → Payload
  inspected : InspectionPayload → Payload
  machine : MachineStatePayload → Payload
  action : OperatorActionPayload → Payload
  device_invalidated : Invalidation → Payload

-- The type whose model in `PAYLOAD_MODELS` the payload belongs to.
abbrev pub type_of : Payload → EventType
type_of (registered _) = EventType.item_registered
type_of (started _) = EventType.operation_started
type_of (finished _) = EventType.operation_finished
type_of (inspected _) = EventType.inspection_result
type_of (machine _) = EventType.machine_state
type_of (action _) = EventType.operator_action
type_of (device_invalidated _) = EventType.control_device_invalidated

-- The source's reference is spread over the fields `source_id`, `source_type` and `sequence`.
pub record EventEnvelope : Type 0 where
  pub event_id : Text
  pub event_type : EventType
  pub schema_version : Text
  pub occurred_at : ℕ
  pub source_id : Text
  pub source_type : Text
  pub sequence : Option ℕ
  pub item_id : Option Text
  pub operation_run_id : Option Text
  pub payload : Payload

-- The milliseconds of a unit.
abbrev pub factor : DurationUnit → ℕ
factor DurationUnit.ms = 1
factor DurationUnit.s = 1000
factor DurationUnit.min = 60000
factor DurationUnit.h = 3600000

-- A duration of more than four hours; its value is in thousandths of the unit.
abbrev pub is_suspicious : Duration → Bool
is_suspicious d = ltb 14400000000 (d.value * factor d.unit)

pub data Warning : Type 0 where
  suspicious_duration : Warning

abbrev pub duration_warnings : Option Duration → List Warning
duration_warnings none = []
duration_warnings (some d) = if is_suspicious d then suspicious_duration ∷ [] else []

abbrev pub payload_warnings : Payload → List Warning
payload_warnings (finished p) = duration_warnings p.duration
payload_warnings (registered _) = []
payload_warnings (started _) = []
payload_warnings (inspected _) = []
payload_warnings (machine _) = []
payload_warnings (action _) = []
payload_warnings (device_invalidated _) = []

unfoldable pub data_quality_warnings : EventEnvelope → List Warning
data_quality_warnings event = payload_warnings event.payload
