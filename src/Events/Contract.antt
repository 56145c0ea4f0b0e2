-- ===== src/Events/Contract.antt =====
-- The payload models of shared_contracts/generated/events.py as readers of JSON, with their own
-- validators. Free-form `parameters` need only be an object.
use kosmohack_final.Quality.Trust.{is_empty}
use kosmohack_final.Events.Json.{get, Json}
use kosmohack_final.Models.Log.{EventType}
use kosmohack_final.Quality.Records.{
  shows_defect, RunReason, Severity, ObservationQuality, DurationUnit, CompletionStatus,
  InspectionResult, Duration, Defect, InspectionScope, InspectionPayload,
}
use kosmohack_final.Events.{
  ItemRegisteredPayload, OperationFinishedPayload, MachineStatePayload, OperatorActionPayload,
  OperationStartedPayload, inspected, started, device_invalidated, machine, finished, action,
  registered, Payload, Invalidation,
}
use kosmohack_final.Events.Key as Key
use kosmohack_final.Events.Schema.{
  sequence_of, guard, or_default, references, optional_identifier, fields_of, label, optional,
  identifier, literal, required, model, Pydantic, ◌>>=◌,
}
use kosmohack_final.Prelude.{if◌then◌else◌, not, [], ◌∷◌, leb, Bool, Option, some, none}

-- `validate_defects`
abbrev pub valid_defects : InspectionPayload → Bool
valid_defects i =
    if shows_defect i.inspection_result then not (is_empty i.defects) else is_empty i.defects

-- `validate_period`
abbrev pub valid_period : Invalidation → Bool
valid_period i = leb i.affected_from i.affected_to

abbrev pub or_unscoped : Option InspectionScope → InspectionScope
or_unscoped none = InspectionScope.unscoped
or_unscoped (some scope) = scope

abbrev pub payload_as : {A : Type 0} → (A → Payload) → Option A → Option Payload
payload_as f none = none
payload_as f (some a) = some (f a)

module _ (p : Pydantic) where
  abbrev pub read_item_registered : Json → Option ItemRegisteredPayload
  read_item_registered value = do
    fs ←
        model
          (Key.product_definition_id ∷ Key.revision ∷ Key.line_id ∷ Key.route_id
            ∷ Key.route_revision ∷ [])
          value
    product ← required Key.product_definition_id (identifier p) fs
    revision ← required Key.revision (label p) fs
    line ← optional_identifier p Key.line_id fs
    route ← optional_identifier p Key.route_id fs
    route_revision ← optional Key.route_revision (p.integer 1) fs
    some (record {
      product_definition_id = product;
      revision = revision;
      line_id = line;
      route_id = route;
      route_revision = route_revision;
    })

  abbrev pub read_operation_started : Json → Option OperationStartedPayload
  read_operation_started value = do
    fs ←
        model
          (Key.operation_id ∷ Key.operator_id ∷ Key.equipment_id ∷ Key.station_id ∷ Key.parameters
            ∷ Key.previous_operation_run_id ∷ Key.run_reason ∷ Key.rework_for_nonconformance_id
            ∷ [])
          value
    operation ← required Key.operation_id (identifier p) fs
    operator ← required Key.operator_id (identifier p) fs
    equipment ← required Key.equipment_id (identifier p) fs
    station ← required Key.station_id (identifier p) fs
    _ ← optional Key.parameters fields_of fs
    previous ← optional_identifier p Key.previous_operation_run_id fs
    reason ←
        or_default RunReason.production (literal (RunReason.production ∷ RunReason.rework ∷ []))
          (get Key.run_reason fs)
    rework ← optional Key.rework_for_nonconformance_id (p.string 0 none) fs
    some (record {
      operation_id = operation;
      operator_id = operator;
      equipment_id = equipment;
      station_id = station;
      previous_operation_run_id = previous;
      run_reason = reason;
      rework_for_nonconformance_id = rework;
    })

  abbrev pub read_duration : Json → Option Duration
  read_duration value = do
    fs ← model (Key.value ∷ Key.unit ∷ Key.meaning ∷ []) value
    amount ← required Key.value p.amount fs
    unit ←
        required Key.unit
          (literal (DurationUnit.ms ∷ DurationUnit.s ∷ DurationUnit.min ∷ DurationUnit.h ∷ [])) fs
    meaning ← required Key.meaning (label p) fs
    some (record { value = amount; unit = unit; meaning = meaning })

  abbrev pub read_operation_finished : Json → Option OperationFinishedPayload
  read_operation_finished value = do
    fs ← model (Key.completion_status ∷ Key.duration ∷ Key.stop_reason ∷ Key.parameters ∷ []) value
    status ←
        required Key.completion_status
          (literal (
            CompletionStatus.completed ∷ CompletionStatus.failed ∷ CompletionStatus.aborted
            ∷ CompletionStatus.interrupted ∷ []))
          fs
    duration ← optional Key.duration read_duration fs
    stop ← optional Key.stop_reason (p.string 0 (some 1000)) fs
    _ ← optional Key.parameters fields_of fs
    some (record { completion_status = status; duration = duration; stop_reason = stop })

  abbrev pub read_defect : Json → Option Defect
  read_defect value = do
    fs ←
        model (Key.defect_type ∷ Key.description ∷ Key.severity ∷ Key.component_instance_id ∷ [])
          value
    defect_type ← required Key.defect_type (identifier p) fs
    description ← optional Key.description (p.string 0 (some 2000)) fs
    severity ←
        optional Key.severity (literal (Severity.minor ∷ Severity.major ∷ Severity.critical ∷ []))
          fs
    component ← optional_identifier p Key.component_instance_id fs
    some (record {
      defect_type = defect_type;
      description = description;
      severity = severity;
      component_instance_id = component;
    })

  abbrev pub inspection_fields : Json → Option InspectionPayload
  inspection_fields value = do
    fs ←
        model
          (Key.inspection_result ∷ Key.observation_quality ∷ Key.control_point_id ∷ Key.confidence
            ∷ Key.inspection_scope ∷ Key.defects ∷ Key.evidence_refs ∷ Key.component_instance_id
            ∷ Key.control_device_id ∷ Key.capture_session_id ∷ [])
          value
    result ←
        required Key.inspection_result
          (literal (
            InspectionResult.no_defect ∷ InspectionResult.defect_detected
            ∷ InspectionResult.impossible_to_assess ∷ []))
          fs
    quality ←
        required Key.observation_quality
          (literal
            (ObservationQuality.good ∷ ObservationQuality.poor ∷ ObservationQuality.unknown ∷ []))
          fs
    point ← required Key.control_point_id (identifier p) fs
    confidence ← optional Key.confidence p.fraction fs
    scope ← optional Key.inspection_scope p.scope fs
    defects ← or_default [] (sequence_of read_defect) (get Key.defects fs)
    refs ← references p Key.evidence_refs fs
    component ← optional_identifier p Key.component_instance_id fs
    device ← optional_identifier p Key.control_device_id fs
    session ← optional_identifier p Key.capture_session_id fs
    some (record {
      inspection_result = result;
      observation_quality = quality;
      control_point_id = point;
      confidence = confidence;
      inspection_scope = or_unscoped scope;
      defects = defects;
      evidence_refs = refs;
      component_instance_id = component;
      control_device_id = device;
      capture_session_id = session;
    })

  abbrev pub read_inspection_result : Json → Option InspectionPayload
  read_inspection_result value = inspection_fields value >>= guard valid_defects

  abbrev pub read_machine_state : Json → Option MachineStatePayload
  read_machine_state value = do
    fs ← model (Key.equipment_id ∷ Key.state ∷ Key.code ∷ Key.parameters ∷ []) value
    equipment ← required Key.equipment_id (identifier p) fs
    state ← required Key.state (label p) fs
    code ← optional Key.code (p.string 0 (some 64)) fs
    _ ← optional Key.parameters fields_of fs
    some (record { equipment_id = equipment; state = state; code = code })

  abbrev pub read_operator_action : Json → Option OperatorActionPayload
  read_operator_action value = do
    fs ← model (Key.operator_id ∷ Key.action_type ∷ Key.parameters ∷ []) value
    operator ← required Key.operator_id (identifier p) fs
    action_type ← required Key.action_type (label p) fs
    _ ← optional Key.parameters fields_of fs
    some (record { operator_id = operator; action_type = action_type })

  abbrev pub invalidation_fields : Json → Option Invalidation
  invalidation_fields value = do
    fs ←
        model
          (Key.device_id ∷ Key.affected_from ∷ Key.affected_to ∷ Key.reason ∷ Key.invalidation_type
            ∷ Key.supporting_evidence_refs ∷ [])
          value
    device ← required Key.device_id (identifier p) fs
    first ← required Key.affected_from p.datetime fs
    last ← required Key.affected_to p.datetime fs
    reason ← required Key.reason (p.string 3 (some 2000)) fs
    kind ← optional Key.invalidation_type (p.string 0 (some 64)) fs
    refs ← references p Key.supporting_evidence_refs fs
    some (record {
      device_id = device;
      affected_from = first;
      affected_to = last;
      reason = reason;
      invalidation_type = kind;
      supporting_evidence_refs = refs;
    })

  abbrev pub read_control_device_invalidated : Json → Option Invalidation
  read_control_device_invalidated value = invalidation_fields value >>= guard valid_period

  -- `PAYLOAD_MODELS[event_type].model_validate`
  unfoldable pub read_payload : EventType → Json → Option Payload
  read_payload EventType.item_registered value = payload_as registered (read_item_registered value)
  read_payload EventType.operation_started value = payload_as started (read_operation_started value)
  read_payload EventType.operation_finished value =
      payload_as finished (read_operation_finished value)
  read_payload EventType.inspection_result value =
      payload_as inspected (read_inspection_result value)
  read_payload EventType.machine_state value = payload_as machine (read_machine_state value)
  read_payload EventType.operator_action value = payload_as action (read_operator_action value)
  read_payload EventType.control_device_invalidated value =
      payload_as device_invalidated (read_control_device_invalidated value)
