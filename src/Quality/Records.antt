-- ===== src/Quality/Records.antt =====
-- The values that the quality rules read: shared_contracts/generated/events.py (the inspection
-- payload) and the dictionaries of projected values that backend/app/projections/rebuild.py hands
-- to backend/app/quality/. Confidences and thresholds are only compared, so they are numbers on
-- one scale; the free-form `parameters` of a payload are not modelled.
use kosmohack_final.Prelude.{ℕ, Text, Option, List, Bool, true, false}

pub data InspectionResult : Type 0 where
  no_defect defect_detected impossible_to_assess : InspectionResult

abbrev pub shows_defect : InspectionResult → Bool
shows_defect defect_detected = true
shows_defect no_defect = false
shows_defect impossible_to_assess = false

pub data ObservationQuality : Type 0 where
  good poor unknown : ObservationQuality

pub data TrustStatus : Type 0 where
  trusted untrusted unassessable conflicted invalidated : TrustStatus

pub data Reason : Type 0 where
  inspection_impossible_to_assess : Reason
  control_device_invalidated : Reason
  equivalent_observations_conflict : Reason
  observation_quality_not_allowed : Reason
  confidence_required : Reason
  confidence_below_threshold : Reason
  device_validity_not_confirmed : Reason
  media_required : Reason

-- `dict | list | None`; a dict may lack either key.
pub data InspectionScope : Type 0 where
  unscoped : InspectionScope
  defect_list : List Text → InspectionScope
  scoped : Option (List Text) → Option (List Text) → InspectionScope

pub data Severity : Type 0 where
  minor major critical : Severity

pub record Defect : Type 0 where
  pub defect_type : Text
  pub description : Option Text
  pub severity : Option Severity
  pub component_instance_id : Option Text

pub record InspectionPayload : Type 0 where
  pub inspection_result : InspectionResult
  pub observation_quality : ObservationQuality
  pub control_point_id : Text
  pub confidence : Option ℕ
  pub inspection_scope : InspectionScope
  pub defects : List Defect
  pub evidence_refs : List Text
  pub component_instance_id : Option Text
  pub control_device_id : Option Text
  pub capture_session_id : Option Text

-- An entry of `observation_values`.
pub record ObservationValue : Type 0 where
  pub payload : InspectionPayload
  pub open payload use *
  pub item_id : Option Text
  pub operation_run_id : Option Text
  pub event_id : Text
  pub occurred_at : ℕ
  pub trust_status : TrustStatus
  pub trust_reasons : List Reason

pub data RunReason : Type 0 where
  production rework : RunReason

pub data CompletionStatus : Type 0 where
  completed failed aborted interrupted : CompletionStatus

pub data DurationUnit : Type 0 where
  ms s min h : DurationUnit

-- The value is counted in thousandths of the unit.
pub record Duration : Type 0 where
  pub value : ℕ
  pub unit : DurationUnit
  pub meaning : Text

-- An entry of `operation_values`; `none` is a key that is not there.
pub record OperationValue : Type 0 where
  pub operation_run_id : Option Text
  pub item_id : Option Text
  pub operation_id : Option Text
  pub operator_id : Option Text
  pub equipment_id : Option Text
  pub station_id : Option Text
  pub started_at : Option ℕ
  pub finished_at : Option ℕ
  pub completion_status : Option CompletionStatus
  pub duration : Option Duration
  pub previous_operation_run_id : Option Text
  pub run_reason : Option RunReason
  pub rework_for_nonconformance_id : Option Text
  pub source_event_id : Option Text

-- An entry of `machine_values`.
pub record MachineValue : Type 0 where
  pub equipment_id : Text
  pub state : Text
  pub code : Option Text
  pub item_id : Option Text
  pub operation_run_id : Option Text
  pub event_id : Text
  pub occurred_at : ℕ

-- An entry of `action_values`.
pub record ActionValue : Type 0 where
  pub operator_id : Text
  pub action_type : Text
  pub item_id : Option Text
  pub operation_run_id : Option Text
  pub event_id : Text
  pub occurred_at : ℕ
