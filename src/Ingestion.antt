-- ===== src/Ingestion.antt =====
-- `ingest_event` of backend/app/ingestion/service.py: its tables, and what the storing of an event
-- writes. The JSON writer, SHA-256 and AES-GCM are functions of `Encoding`; the ingest number is drawn
-- by the database. A request is one step, so a commit does not meet a concurrent one.
pub mod Projections
pub mod Store
pub mod Chains
pub mod Repeats
pub mod Starts
pub mod Verified
pub mod Sources
pub mod Ingest
pub mod Refusals
pub mod Nonces
use kosmohack_final.Events.{
  data_quality_warnings, Warning, EventEnvelope, Payload, registered, started, finished, inspected,
  machine, action, device_invalidated, Invalidation,
}
use kosmohack_final.Session.{ErrorCode}
use kosmohack_final.Models.Quality.{Observation}
use kosmohack_final.Models.Log.{
  EventSource, TransportNonce, AuditTarget, AuditEntry, AuditOutcome, StreamStatus, AuditAction,
  SecurityAlert, ControlDeviceInvalidation, ProjectionStatus, IntegrityStreamState, RawEvent,
  EventType, ProjectionState, AlertType, IngestAttempt, AttemptStatus, Bytes,
}
use kosmohack_final.Prelude.{
  ltb, is_some, leb, if◌then◌else◌, select, ◌&&◌, ◌==◌, contains, map, none, [], opt_eq, find,
  update, max, ◌∷◌, some, Bool, suc, Option, ℕ, ◌++◌, List, Text,
}

-- What a profile after the first adds to the associated data.
pub record ProfileData : Type 0 where
  pub occurred_at : ℕ
  pub item_id : Option Text
  pub crypto_key_id : Text
  pub crypto_profile : Text

-- What `build_aad` puts into JSON.
pub record AssociatedData : Type 0 where
  pub event_id : Text
  pub event_type : EventType
  pub received_at : ℕ
  pub schema_version : Text
  pub source_id : Text
  pub extension : Option ProfileData

-- The profiles CLASSIC_V1 and CLASSIC_V2.
abbrev pub classic_v1 : Text
classic_v1 = 1

abbrev pub classic_v2 : Text
classic_v2 = 2

unfoldable pub build_aad :
    (event_id : Text)
    → EventType
    → (source_id schema_version : Text) → (received_at occurred_at : ℕ) → Option Text
    → (crypto_key_id profile : Text) → AssociatedData
build_aad event_id event_type source_id schema_version received_at occurred_at item_id key profile =
    record {
      event_id = event_id;
      event_type = event_type;
      received_at = received_at;
      schema_version = schema_version;
      source_id = source_id;
      extension =
          if profile == classic_v1
          then none
          else some (record {
            occurred_at = occurred_at;
            item_id = item_id;
            crypto_key_id = key;
            crypto_profile = profile;
          });
    }

pub record Encoding : Type 0 where
  pub canonical_json : EventEnvelope → Bytes
  pub sha256_hex : Bytes → Text
  -- The ciphertext and the nonce.
  pub encrypt_event : Bytes → AssociatedData → Bytes × Bytes
  pub aes_key_id : Text

pub record Tables : Type 0 where
  pub sources : List EventSource
  pub nonces : List TransportNonce
  pub raw_events : List RawEvent
  pub streams : List IntegrityStreamState
  pub projections : List ProjectionState
  pub invalidations : List ControlDeviceInvalidation
  pub observations : List Observation
  pub attempts : List IngestAttempt
  pub alerts : List SecurityAlert
  pub audits : List AuditEntry

-- What an answer says of the projection of the event's item.
pub data AnsweredStatus : Type 0 where
  unchanged stale not_applicable : AnsweredStatus

pub record IngestionResult : Type 0 where
  pub event_id : Text
  pub ingestion_status : AttemptStatus
  pub projection_status : AnsweredStatus
  pub content_hash : Text
  pub warnings : List Warning
  pub affected_items : List Text

abbrev pub get_event : Text → Tables → Option RawEvent
get_event id db = find (λ e. e.event_id == id) db.raw_events

abbrev pub get_stream : Text → Tables → Option IntegrityStreamState
get_stream id db = find (λ s. s.stream_id == id) db.streams

-- The text "source:" before the identity: one text for each source.
abbrev pub stream_of : Text → Text
stream_of source_id = suc source_id

abbrev pub new_stream : Text → IntegrityStreamState
new_stream id = record {
  stream_id = id;
  last_seq = 0;
  last_mac = [];
  status = StreamStatus.stream_ok;
}

abbrev pub or_new_stream : Text → Option IntegrityStreamState → IntegrityStreamState
or_new_stream id none = new_stream id
or_new_stream id (some s) = s

abbrev pub attempt : AttemptStatus → Option ErrorCode → EventEnvelope → Text → IngestAttempt
attempt status error event hash = record {
  source_id = some event.source_id;
  claimed_event_id = some event.event_id;
  status = status;
  error_code = error;
  raw_event_id = some event.event_id;
  payload_hash = some hash;
}

abbrev pub add_attempt : IngestAttempt → Tables → Tables
add_attempt a db = record db { attempts = db.attempts ++ a ∷ [] }

abbrev pub duplicate_result : EventEnvelope → Text → IngestionResult
duplicate_result event hash = record {
  event_id = event.event_id;
  ingestion_status = AttemptStatus.duplicate;
  projection_status = AnsweredStatus.unchanged;
  content_hash = hash;
  warnings = [];
  affected_items = [];
}

-- `"stale" if event.item_id else "not_applicable"`: the empty text counts as no item.
abbrev pub answered_status : Option Text → AnsweredStatus
answered_status none = AnsweredStatus.not_applicable
answered_status (some id) = if id == 0 then AnsweredStatus.not_applicable else AnsweredStatus.stale

-- A text in its place among sorted ones, once.
abbrev pub insert_text : Text → List Text → List Text
insert_text t [] = t ∷ []
insert_text t (x ∷ xs) =
    let rest = insert_text t xs in
    if t == x then x ∷ xs else if ltb t x then t ∷ x ∷ xs else x ∷ rest

-- `sorted(set(texts))`
abbrev pub sorted_set : List Text → List Text
sorted_set [] = []
sorted_set (t ∷ ts) = insert_text t (sorted_set ts)

abbrev pub accepted_result : EventEnvelope → Text → List Text → IngestionResult
accepted_result event hash affected = record {
  event_id = event.event_id;
  ingestion_status = AttemptStatus.accepted;
  projection_status = answered_status event.item_id;
  content_hash = hash;
  warnings = data_quality_warnings event;
  affected_items = sorted_set affected;
}

-- The alert and the audit entry of an event identity that comes with other content.
abbrev pub report_conflict : EventEnvelope → Tables → Tables
report_conflict event db = record db {
  alerts =
      db.alerts
      ++ record {
        alert_type = AlertType.event_id_conflict;
        source_id = some event.source_id;
        target_id = some event.event_id;
      }
        ∷ [];
  audits =
      db.audits
      ++ record {
        action = AuditAction.event_id_conflict;
        outcome = AuditOutcome.detected;
        actor_user_id = none;
        session_id = none;
        target_type = some AuditTarget.raw_event;
        target_id = some event.event_id;
        request_id = none;
      }
        ∷ [];
}
