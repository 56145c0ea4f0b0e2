-- ===== src/Tests/Nonconformance.antt =====
-- The handlers of backend/app/api/nonconformances.py on one nonconformance that is resolved by
-- rework.
use kosmohack_final.Nonconformance.Backing.{IsBacked}
use kosmohack_final.Nonconformance.Evidence.{
  failed_evidence_iff, HasFailedEvidence, integrity_error,
}
use kosmohack_final.Nonconformance.Gates.{rework_gate, verify_outcome, review_once}
use kosmohack_final.Quality.Records.{
  trusted, RunReason, unscoped, good, CompletionStatus, no_defect,
}
use kosmohack_final.Session.{not_found_error, ErrorCode, traceq_error}
use kosmohack_final.Nonconformance.Containment.{review_containment}
use kosmohack_final.Prelude.{◌↔◌, refl, ◌≡◌, false, ◌∷◌, [], none, some, true}
use kosmohack_final.Nonconformance.Exports.{serve-IsBacked}
use kosmohack_final.Nonconformance.Rework.{
  has_trusted_good, rework_finished, ReworkVerificationRequest,
}
use kosmohack_final.Models.Quality.{
  VerificationStatus, ProposalStatus, ResolutionType, Containment, Disposition, Verdict,
  Observation, ContainmentProposal, Nonconformance, OperationRun,
}
use kosmohack_final.Models.Log.{integrity_failed, stream_ok, EventType, StreamStatus, RawEvent}
use kosmohack_final.Nonconformance.Tables.{get_ncr, Tables, has_failed_evidence}
use kosmohack_final.Nonconformance.Atomicity.{
  review, refused_changes_nothing, assess, verify, decide, serve,
}
use kosmohack_final.Nonconformance.Handlers.{
  ReviewVerdict, FinalVerdict, decide_nonconformance, Caller, DecisionRequest,
}

abbrev ncr : Nonconformance
ncr = record {
  id = 2;
  occurrence_id = 3;
  item_id = 1;
  defect_type = 9;
  component_instance_id = none;
  verdict = Verdict.confirmed;
  disposition = Disposition.rework_required;
  containment = Containment.hold;
  opened_at = 50;
  closed_at = none;
  current_analysis_version = 1;
  resolution_type = some ResolutionType.rework;
  resolved_at = none;
  verification_decision_id = none;
  verification_status = some VerificationStatus.pending;
}

abbrev rework_run : OperationRun
rework_run = record {
  operation_run_id = some 4;
  item_id = 1;
  operation_id = none;
  operator_id = none;
  equipment_id = none;
  station_id = none;
  started_at = some 60;
  finished_at = some 70;
  completion_status = some CompletionStatus.completed;
  duration_value = none;
  duration_unit = none;
  duration_meaning = none;
  previous_operation_run_id = none;
  run_reason = RunReason.rework;
  rework_for_nonconformance_id = some 2;
}

abbrev good_after : Observation
good_after = record {
  id = 5;
  event_id = 80;
  item_id = 1;
  operation_run_id = none;
  occurred_at = 80;
  inspection_result = no_defect;
  observation_quality = good;
  control_point_id = 7;
  confidence = none;
  inspection_scope = unscoped;
  component_instance_id = none;
  control_device_id = none;
  capture_session_id = none;
  evidence_refs = [];
  trust_status = trusted;
  trust_reasons = [];
}

abbrev evidence : RawEvent
evidence = record {
  event_id = 80;
  event_type = EventType.inspection_result;
  schema_version = 1;
  source_id = 1;
  source_type = 1;
  source_sequence = none;
  item_id = some 1;
  operation_run_id = none;
  occurred_at = 80;
  received_at = 81;
  ingest_seq = 1;
  payload_ciphertext = [];
  nonce = [];
  content_hash = 1;
  integrity_stream_id = 6;
  integrity_seq = 1;
  prev_integrity_mac = [];
  integrity_mac = [];
  crypto_key_id = 1;
  key_version = 1;
  crypto_profile_id = 1;
}

abbrev proposal : ContainmentProposal
proposal = record {
  id = 15;
  nonconformance_id = some 2;
  proposed_by = 3;
  containment = Containment.hold;
  rationale = 1;
  status = ProposalStatus.pending;
  reviewed_by = none;
  review_reason = none;
  reviewed_at = none;
}

abbrev plant : StreamStatus → Tables
plant status = record {
  nonconformances = ncr ∷ [];
  decisions = [];
  items = [];
  occurrences = [];
  operation_runs = rework_run ∷ [];
  observations = good_after ∷ [];
  proposals = proposal ∷ [];
  notes = [];
  quality_results = [];
  outbox = [];
  raw_events = evidence ∷ [];
  streams = record { stream_id = 6; last_seq = 1; last_mac = []; status = status } ∷ [];
  audits = [];
}

abbrev controller : Caller
controller = record { user_id = 3; session_id = 4; request_id = 5 }

abbrev release : DecisionRequest
release = record {
  verdict = FinalVerdict.confirmed;
  disposition = Disposition.released;
  containment = Containment.uncontained;
  reason = 1;
}

abbrev approval : ReworkVerificationRequest
approval = record { approved = true; reason = 1 }

refused_changes_nothing_example :
    (serve 100 11 controller (decide 99 release) (plant stream_ok)).1 ≡ plant stream_ok
unfolding serve decide_nonconformance
refused_changes_nothing_example =
    refused_changes_nothing 100 11 controller (decide 99 release) (plant stream_ok) not_found_error
      refl

failed_evidence_iff_example :
    let db = plant integrity_failed in
    (((serve 100 11 controller (review 2 ReviewVerdict.pending_review) db).0 ≡ integrity_error)
      ↔ HasFailedEvidence 1 db)
    × (((serve 100 11 controller (decide 2 release) db).0 ≡ integrity_error)
        ↔ HasFailedEvidence 1 db)
    × (((serve 100 11 controller (verify 2 approval) db).0 ≡ integrity_error)
        ↔ HasFailedEvidence 1 db)
failed_evidence_iff_example =
    failed_evidence_iff 100 11 controller 2 ReviewVerdict.pending_review release approval
      (plant integrity_failed) ncr refl refl

rework_gate_example :
    serve 100 11 controller (decide 2 release) (plant stream_ok)
    ≡ (some (traceq_error ErrorCode.rework_verification_required 409), plant stream_ok)
unfolding has_failed_evidence
rework_gate_example =
    rework_gate 100 11 controller 2 release (plant stream_ok) ncr refl refl refl refl refl

verify_outcome_example :
    get_ncr 2 (serve 100 11 controller (verify 2 approval) (plant stream_ok)).1
    ≡ some (record ncr {
      verification_decision_id = some 11;
      verification_status = some VerificationStatus.passed;
      resolution_type = some ResolutionType.rework;
      resolved_at = some 100;
      disposition = Disposition.released;
      containment = Containment.uncontained;
      closed_at = some 100;
    })
unfolding has_failed_evidence rework_finished has_trusted_good
verify_outcome_example =
    verify_outcome 100 11 controller 2 approval (plant stream_ok) ncr 70 refl refl refl refl

review_once_example :
    let db' = (serve 100 11 controller (assess 15 true 1) (plant stream_ok)).1 in
    serve 200 12 controller (assess 15 false 1) db'
    ≡ (some (traceq_error ErrorCode.proposal_already_reviewed 409), db')
unfolding serve review_containment
review_once_example =
    review_once 100 200 11 12 controller controller 15 true false 1 1 (plant stream_ok) refl

serve-IsBacked_example : IsBacked (serve 100 11 controller (verify 2 approval) (plant stream_ok)).1
serve-IsBacked_example =
    serve-IsBacked 100 11 controller (verify 2 approval) (plant stream_ok)
      (record { decided = tt; carried = tt })
