-- ===== src/Models/Quality.antt =====
-- The projected facts of an item, its nonconformances, and the decisions about them.
use kosmohack_final.Prelude.{ℕ, Text, Option, List}
use kosmohack_final.Quality.Records.{
  InspectionResult, ObservationQuality, InspectionScope, Severity, TrustStatus, Reason, RunReason,
  CompletionStatus, DurationUnit,
}
use kosmohack_final.Quality.BirthWindow.{WindowStatus, EvidenceType, EvidenceRole, Details}

pub data Verdict : Type 0 where
  pending_review needs_extra_check confirmed rejected : Verdict

pub data Disposition : Type 0 where
  in_process rework_required released scrapped use_as_is : Disposition

pub data Containment : Type 0 where
  uncontained hold reinspection_required review_required : Containment

pub data ResolutionType : Type 0 where
  rework : ResolutionType

pub data VerificationStatus : Type 0 where
  pending passed failed : VerificationStatus

pub data OccurrenceStatus : Type 0 where
  open_occurrence closed_occurrence : OccurrenceStatus

pub data StructureStatus : Type 0 where
  available degraded : StructureStatus

pub record Item : Type 0 where
  pub item_id : Text
  pub product_definition_id : Text
  pub revision : Text
  pub line_id : Option Text
  pub route_revision_id : Option ℕ
  pub status : Disposition
  pub structure_status : StructureStatus
  pub registered_at : ℕ

pub record OperationRun : Type 0 where
  pub operation_run_id : Option Text
  pub item_id : Text
  pub operation_id : Option Text
  pub operator_id : Option Text
  pub equipment_id : Option Text
  pub station_id : Option Text
  pub started_at : Option ℕ
  pub finished_at : Option ℕ
  pub completion_status : Option CompletionStatus
  pub duration_value : Option ℕ
  pub duration_unit : Option DurationUnit
  pub duration_meaning : Option Text
  pub previous_operation_run_id : Option Text
  pub run_reason : RunReason
  pub rework_for_nonconformance_id : Option ℕ

pub record Observation : Type 0 where
  pub id : ℕ
  pub event_id : Text
  pub item_id : Text
  pub operation_run_id : Option Text
  pub occurred_at : ℕ
  pub inspection_result : InspectionResult
  pub observation_quality : ObservationQuality
  pub control_point_id : Text
  pub confidence : Option ℕ
  pub inspection_scope : InspectionScope
  pub component_instance_id : Option Text
  pub control_device_id : Option Text
  pub capture_session_id : Option Text
  pub evidence_refs : List Text
  pub trust_status : TrustStatus
  pub trust_reasons : List Reason

pub record DefectObservation : Type 0 where
  pub observation_id : ℕ
  pub item_id : Text
  pub defect_type : Text
  pub component_instance_id : Option Text
  pub description : Option Text
  pub severity : Option Severity

pub record MachineEvent : Type 0 where
  pub event_id : Text
  pub item_id : Text
  pub operation_run_id : Option Text
  pub equipment_id : Text
  pub state : Text
  pub code : Option Text
  pub occurred_at : ℕ

pub record OperatorAction : Type 0 where
  pub event_id : Text
  pub item_id : Text
  pub operation_run_id : Option Text
  pub operator_id : Text
  pub action_type : Text
  pub occurred_at : ℕ

pub record DefectOccurrence : Type 0 where
  pub id : ℕ
  pub item_id : Text
  pub defect_type : Text
  pub component_instance_id : Option Text
  pub first_observation_id : ℕ
  pub current_observation_id : ℕ
  pub status : OccurrenceStatus
  pub opened_at : ℕ
  pub closed_at : Option ℕ

pub record Nonconformance : Type 0 where
  pub id : ℕ
  pub occurrence_id : ℕ
  pub item_id : Text
  pub defect_type : Text
  pub component_instance_id : Option Text
  pub verdict : Verdict
  pub disposition : Disposition
  pub containment : Containment
  pub opened_at : ℕ
  pub closed_at : Option ℕ
  pub current_analysis_version : ℕ
  pub resolution_type : Option ResolutionType
  pub resolved_at : Option ℕ
  pub verification_decision_id : Option ℕ
  pub verification_status : Option VerificationStatus

pub data AnalysisReason : Type 0 where
  late_event_rebuild initial_detection control_device_invalidation : AnalysisReason

pub record AnalysisVersion : Type 0 where
  pub id : ℕ
  pub nonconformance_id : ℕ
  pub item_id : Text
  pub version : ℕ
  pub status : WindowStatus
  pub defect_type : Text
  pub component_instance_id : Option Text
  pub left_boundary_at : Option ℕ
  pub right_boundary_at : Option ℕ
  pub reason : AnalysisReason

pub record AnalysisEvidence : Type 0 where
  pub analysis_version_id : ℕ
  pub evidence_type : EvidenceType
  pub evidence_role : EvidenceRole
  pub source_event_id : Option Text
  pub occurred_at : Option ℕ
  pub details : Details

-- The structure itself is not read.
pub record ProductStructureSnapshot : Type 0 where
  pub id : ℕ
  pub assembly_id : Text
  pub revision : Text
  pub content_hash : Text

pub record InvestigationNote : Type 0 where
  pub id : ℕ
  pub nonconformance_id : ℕ
  pub author_user_id : ℕ
  pub body : Text

pub data ProposalStatus : Type 0 where
  pending approved rejected : ProposalStatus

pub record ContainmentProposal : Type 0 where
  pub id : ℕ
  pub nonconformance_id : Option ℕ
  pub proposed_by : ℕ
  pub containment : Containment
  pub rationale : Text
  pub status : ProposalStatus
  pub reviewed_by : Option ℕ
  pub review_reason : Option Text
  pub reviewed_at : Option ℕ

pub record ControllerDecision : Type 0 where
  pub id : ℕ
  pub nonconformance_id : ℕ
  pub user_id : ℕ
  pub verdict : Verdict
  pub disposition : Disposition
  pub containment : Containment
  pub reason : Text
  pub analysis_version : ℕ
  pub previous_decision_id : Option ℕ
