-- ===== src/Models/Log.antt =====
-- The raw log, its integrity streams, the sources, and the records about security.
use kosmohack_final.Session.{ErrorCode}
use kosmohack_final.Prelude.{ℕ, Text, Option, List, Bool}

abbrev pub Bytes : Type 0
Bytes = List ℕ

pub data SourceStatus : Type 0 where
  active inactive : SourceStatus

pub data AuthMethod : Type 0 where
  hmac_v1 shared_secret_legacy : AuthMethod

pub data EventType : Type 0 where
  control_device_invalidated inspection_result item_registered machine_state : EventType
  operation_finished operation_started operator_action : EventType

pub record EventSource : Type 0 where
  pub source_id : Text
  pub source_type : Text
  pub enabled : Bool
  pub status : SourceStatus
  pub auth_method : AuthMethod
  pub token_hash : Option Text
  pub allowed_event_types : List EventType
  pub allowed_line_ids : List Text
  pub allowed_station_ids : List Text
  pub valid_from : Option ℕ
  pub valid_to : Option ℕ
  pub revoked_at : Option ℕ
  pub last_source_sequence : Option ℕ

pub data AttemptStatus : Type 0 where
  rejected duplicate conflict accepted : AttemptStatus

pub record IngestAttempt : Type 0 where
  pub source_id : Option Text
  pub claimed_event_id : Option Text
  pub status : AttemptStatus
  pub error_code : Option ErrorCode
  pub raw_event_id : Option Text
  pub payload_hash : Option Text

pub record TransportNonce : Type 0 where
  pub source_id : Text
  pub nonce : Text
  pub timestamp : ℕ

pub data AlertType : Type 0 where
  replay_attempt source_auth_failed source_scope_violation event_id_conflict : AlertType
  key_unavailable source_sequence_anomaly raw_log_integrity_failed invalid_ack : AlertType

pub record SecurityAlert : Type 0 where
  pub alert_type : AlertType
  pub source_id : Option Text
  pub target_id : Option Text

pub data StreamStatus : Type 0 where
  stream_ok integrity_failed : StreamStatus

pub record IntegrityStreamState : Type 0 where
  pub stream_id : Text
  pub last_seq : ℕ
  pub last_mac : Bytes
  pub status : StreamStatus

pub record RawEvent : Type 0 where
  pub event_id : Text
  pub event_type : EventType
  pub schema_version : Text
  pub source_id : Text
  pub source_type : Text
  pub source_sequence : Option ℕ
  pub item_id : Option Text
  pub operation_run_id : Option Text
  pub occurred_at : ℕ
  pub received_at : ℕ
  pub ingest_seq : ℕ
  pub payload_ciphertext : Bytes
  pub nonce : Bytes
  pub content_hash : Text
  pub integrity_stream_id : Text
  pub integrity_seq : ℕ
  pub prev_integrity_mac : Bytes
  pub integrity_mac : Bytes
  pub crypto_key_id : Text
  pub key_version : Text
  pub crypto_profile_id : Text

pub data AuditAction : Type 0 where
  nonconformance_review controller_decision rework_verification : AuditAction
  extra_inspection_request investigation_note_create containment_proposal : AuditAction
  containment_approval containment_rejection route_revision_activation : AuditAction
  login_failure login_success refresh_rotation logout event_id_conflict : AuditAction

pub data AuditOutcome : Type 0 where
  success passed failed locked denied detected : AuditOutcome

pub data AuditTarget : Type 0 where
  nonconformance containment_proposal route_revision user session raw_event : AuditTarget

pub record AuditEntry : Type 0 where
  pub action : AuditAction
  pub outcome : AuditOutcome
  pub actor_user_id : Option ℕ
  pub session_id : Option ℕ
  pub target_type : Option AuditTarget
  pub target_id : Option ℕ
  pub request_id : Option Text

pub record ControlDeviceInvalidation : Type 0 where
  pub source_event_id : Option Text
  pub device_id : Text
  pub affected_from : ℕ
  pub affected_to : ℕ
  pub reason : Text
  pub invalidation_type : Option Text
  pub supporting_evidence_refs : List Text

pub data ProjectionStatus : Type 0 where
  stale rebuilding up_to_date failed : ProjectionStatus

pub record ProjectionState : Type 0 where
  pub item_id : Text
  pub latest_raw_ingest_seq : ℕ
  pub last_projected_ingest_seq : ℕ
  pub projection_version : ℕ
  pub status : ProjectionStatus
  pub last_successful_rebuild_at : Option ℕ
  pub last_error : Option Text
