-- ===== src/Ingestion/Store.antt =====
-- `ingest_event` from the canonical form of the event on.
use kosmohack_final.Events.{EventEnvelope}
use kosmohack_final.Session.{
  Action, raise, pure, commit, ErrorCode, traceq_error, TraceqError, modify, or_raise, ◌>>◌, gets,
  ◌>>=◌,
}
use kosmohack_final.Models.Log.{AttemptStatus, ProjectionState, IntegrityStreamState, RawEvent}
use kosmohack_final.Prelude.{
  some, none, some, find, is_some, if◌then◌else◌, [], ◌∷◌, ◌++◌, ◌==◌, suc, update, List, ℕ, Text,
}
use kosmohack_final.Ingestion.{
  classic_v2, build_aad, report_conflict, duplicate_result, accepted_result, attempt, add_attempt,
  new_stream, or_new_stream, get_stream, get_event, IngestionResult, stream_of, AssociatedData,
  Tables, Encoding,
}
use kosmohack_final.Ingestion.Projections.{affected_by, touch_item, invalidate}
use kosmohack_final.Security.Integrity.{compute_integrity_mac, Primitives}

-- An exception that no handler expects: FastAPI answers 500.
abbrev pub type_error : TraceqError
type_error = traceq_error ErrorCode.internal_error 500

module _ (prims : Primitives) (enc : Encoding) where
  abbrev pub content_hash : EventEnvelope → Text
  content_hash event = enc.sha256_hex (enc.canonical_json event)

  abbrev pub associated_data : ℕ → EventEnvelope → AssociatedData
  associated_data received_at event =
      build_aad event.event_id event.event_type event.source_id event.schema_version received_at
        event.occurred_at event.item_id enc.aes_key_id classic_v2

  -- The event as it is stored, but for its MAC.
  abbrev pub unsigned_event :
      (received_at ingest_seq : ℕ) → EventEnvelope → IntegrityStreamState → RawEvent
  unsigned_event received_at ingest_seq event stream =
      let sealed =
        enc.encrypt_event (enc.canonical_json event) (associated_data received_at event) in
      record {
        event_id = event.event_id;
        event_type = event.event_type;
        schema_version = event.schema_version;
        source_id = event.source_id;
        source_type = event.source_type;
        source_sequence = event.sequence;
        item_id = event.item_id;
        operation_run_id = event.operation_run_id;
        occurred_at = event.occurred_at;
        received_at = received_at;
        ingest_seq = ingest_seq;
        payload_ciphertext = sealed.0;
        nonce = sealed.1;
        content_hash = content_hash event;
        integrity_stream_id = stream_of event.source_id;
        integrity_seq = suc stream.last_seq;
        prev_integrity_mac = stream.last_mac;
        integrity_mac = [];
        crypto_key_id = enc.aes_key_id;
        key_version = 1;
        crypto_profile_id = classic_v2;
      }

  abbrev pub stored_event :
      (received_at ingest_seq : ℕ) → EventEnvelope → IntegrityStreamState → RawEvent
  stored_event received_at ingest_seq event stream =
      let raw = unsigned_event received_at ingest_seq event stream in
      record raw { integrity_mac = compute_integrity_mac prims raw }

  abbrev pub advance_stream : RawEvent → IntegrityStreamState → IntegrityStreamState
  advance_stream raw s = record s { last_seq = raw.integrity_seq; last_mac = raw.integrity_mac }

  -- The stream is added when it is not there, and then counts the event.
  abbrev pub write_stream : Text → RawEvent → List IntegrityStreamState → List IntegrityStreamState
  write_stream id raw rows =
      update (λ s. s.stream_id == id) (advance_stream raw)
        (if is_some (find (λ s. s.stream_id == id) rows) then rows else rows ++ new_stream id ∷ [])

  abbrev pub append_event : RawEvent → EventEnvelope → List ProjectionState → Tables → Tables
  append_event raw event projections db = invalidate event event.payload (record db {
    raw_events = db.raw_events ++ raw ∷ [];
    streams = write_stream raw.integrity_stream_id raw db.streams;
    projections = projections;
  })

  abbrev pub repeat : EventEnvelope → RawEvent → Action Tables IngestionResult
  repeat event existing =
      if existing.content_hash == content_hash event
      then (do
        modify (add_attempt (attempt AttemptStatus.duplicate none event (content_hash event)))
        commit
        pure (duplicate_result event (content_hash event)))
      else (do
        modify (
            add_attempt (
              attempt AttemptStatus.conflict (some ErrorCode.event_id_conflict) event
                (content_hash event)))
        modify (report_conflict event)
        commit
        raise (traceq_error ErrorCode.event_id_conflict 409))

  abbrev pub accept : (received_at ingest_seq : ℕ) → EventEnvelope → Action Tables IngestionResult
  accept received_at ingest_seq event = do
    stream ← gets (get_stream (stream_of event.source_id))
    let raw =
        stored_event received_at ingest_seq event (or_new_stream (stream_of event.source_id) stream)
    touched ← gets (λ db. touch_item ingest_seq event.item_id db.projections)
    projections ← or_raise touched type_error
    affected ← gets (affected_by event.payload)
    modify (append_event raw event projections)
    modify (add_attempt (attempt AttemptStatus.accepted none event (content_hash event)))
    commit
    pure (accepted_result event (content_hash event) affected)

  unfoldable pub store_event :
      (received_at ingest_seq : ℕ) → EventEnvelope → Action Tables IngestionResult
  store_event received_at ingest_seq event = do
    existing ← gets (get_event event.event_id)
    elim existing [ some raw ↦ repeat event raw | none ↦ accept received_at ingest_seq event ]
