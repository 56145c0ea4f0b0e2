-- ===== src/Tests/Ingestion.antt =====
-- backend/app/ingestion/service.py on an event. The concrete MAC is the message itself, an event is
-- encoded by its identity, and the ciphertext is the plain text.
use kosmohack_final.Ingestion.Verified.{stored_verifies, store_all, checked}
use kosmohack_final.Ingestion.Repeats.{store_again}
use kosmohack_final.Ingestion.Starts.{unknown_item_never_starts, HasNone, events_of_item}
use kosmohack_final.Prelude.{some, none, refl, some, ◌≡◌, length, none, [], ◌∷◌, List}
use kosmohack_final.Ingestion.Store.{content_hash, type_error, store_event}
use kosmohack_final.Security.Integrity.{verify_integrity, Primitives}
use kosmohack_final.Session.{err, ok, request}
use kosmohack_final.Ingestion.{accepted_result, duplicate_result, Tables, Encoding}
use kosmohack_final.Events.{EventEnvelope, machine}
use kosmohack_final.Models.Log.{EventType, ProjectionStatus, ProjectionState}

abbrev prims : Primitives
prims = record {
  hmac_sha256 = λ key message. message;
  json_bytes = λ m. m.event_id ∷ m.integrity_seq ∷ [];
  utf8 = λ text. text ∷ [];
  integrity_key = 1 ∷ [];
}

abbrev encoding : Encoding
encoding = record {
  canonical_json = λ e. e.event_id ∷ [];
  sha256_hex = λ bytes. length bytes;
  encrypt_event = λ plaintext aad. (plaintext, []);
  aes_key_id = 1;
}

abbrev event : EventEnvelope
event = record {
  event_id = 80;
  event_type = EventType.machine_state;
  schema_version = 1;
  occurred_at = 10;
  source_id = 5;
  source_type = 1;
  sequence = none;
  item_id = some 1;
  operation_run_id = none;
  payload = machine (record { equipment_id = 7; state = 2; code = none });
}

abbrev projection : ProjectionState
projection = record {
  item_id = 1;
  latest_raw_ingest_seq = 0;
  last_projected_ingest_seq = 0;
  projection_version = 1;
  status = ProjectionStatus.up_to_date;
  last_successful_rebuild_at = none;
  last_error = none;
}

abbrev empty_log : List ProjectionState → Tables
empty_log projections = record {
  sources = [];
  nonces = [];
  raw_events = [];
  streams = [];
  projections = projections;
  invalidations = [];
  observations = [];
  attempts = [];
  alerts = [];
  audits = [];
}

store_again_example :
    let db' = (request (store_event prims encoding 20 1 event) (empty_log (projection ∷ []))).1 in
    let (r'', db'') = request (store_event prims encoding 30 2 event) db' in
    (r'' ≡ ok (duplicate_result event (content_hash prims encoding event)))
    × (db''.raw_events ≡ db'.raw_events)
    × (db''.streams ≡ db'.streams)
    × (db''.projections ≡ db'.projections)
unfolding store_event
store_again_example =
    store_again prims encoding 20 1 30 2 event (empty_log (projection ∷ []))
      (accepted_result event (content_hash prims encoding event) []) refl

unknown_item_never_starts_example :
    let db' =
      store_all prims encoding
        ((20, 1, event) ∷ (30, 2, record event { event_id = 81 }) ∷ [])
        (empty_log []) in
    HasNone 1 db'.projections × (events_of_item 1 db' ≡ events_of_item 1 (empty_log []))
unknown_item_never_starts_example =
    unknown_item_never_starts prims encoding 1 refl
      ((20, 1, event) ∷ (30, 2, record event { event_id = 81 }) ∷ []) (empty_log []) refl

-- The request ends in the exception.
first_event_fails :
    request (store_event prims encoding 20 1 event) (empty_log []) ≡ (err type_error, empty_log [])
unfolding store_event
first_event_fails = refl

stored_verifies_example :
    (verify_integrity prims (
      checked (
        store_all prims encoding
          ((20, 1, event) ∷ (30, 2, record event { event_id = 81 }) ∷ [])
          (empty_log (projection ∷ []))))).0
    ≡ []
stored_verifies_example =
    stored_verifies prims encoding ((20, 1, event) ∷ (30, 2, record event { event_id = 81 }) ∷ [])
      (empty_log (projection ∷ [])) (λ id. refl)
