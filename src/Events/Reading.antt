-- ===== src/Events/Reading.antt =====
-- The envelope of an event, backend/app/domain/events.py, as a reader of JSON.
use kosmohack_final.Events.Validation.{version_1, has_required_ids}
use kosmohack_final.Events.{EventEnvelope, Payload}
use kosmohack_final.Events.Json.{only, Fields, Json}
use kosmohack_final.Models.Log.{EventType}
use kosmohack_final.Events.Key as Key
use kosmohack_final.Events.Schema.{
  optional_identifier, optional, guard, label, identifier, required, model, Pydantic, ◌>>=◌,
}
use kosmohack_final.Prelude.{ℕ, [], ◌∷◌, Option, List, Text, some}

-- The keys of `EventEnvelope`.
abbrev pub envelope_keys : List Text
envelope_keys =
    Key.event_id ∷ Key.event_type ∷ Key.schema_version ∷ Key.occurred_at ∷ Key.source ∷ Key.item_id
    ∷ Key.operation_run_id ∷ Key.payload ∷ []

-- `SourceRef`
pub record SourceRef : Type 0 where
  pub source_id : Text
  pub source_type : Text
  pub sequence : Option ℕ

abbrev pub source_ref : Pydantic → Json → Option SourceRef
source_ref p value = do
  fs ← model (Key.source_id ∷ Key.source_type ∷ Key.sequence ∷ []) value
  id ← required Key.source_id (identifier p) fs
  kind ← required Key.source_type (label p) fs
  sequence ← optional Key.sequence (p.integer 0) fs
  some (record { source_id = id; source_type = kind; sequence = sequence })

-- The fields of the envelope but for the type, the version and the payload.
pub record Header : Type 0 where
  pub event_id : Text
  pub occurred_at : ℕ
  pub source : SourceRef
  pub item_id : Option Text
  pub operation_run_id : Option Text

abbrev pub read_header : Pydantic → Fields → Option Header
read_header p candidate = do
  fs ← guard (only envelope_keys) candidate
  id ← required Key.event_id (identifier p) fs
  occurred_at ← required Key.occurred_at p.datetime fs
  source ← required Key.source (source_ref p) fs
  item_id ← optional_identifier p Key.item_id fs
  run_id ← optional_identifier p Key.operation_run_id fs
  some (record {
    event_id = id;
    occurred_at = occurred_at;
    source = source;
    item_id = item_id;
    operation_run_id = run_id;
  })

abbrev pub with_header : EventType → Payload → Header → EventEnvelope
with_header event_type payload header = record {
  event_id = header.event_id;
  event_type = event_type;
  schema_version = version_1;
  occurred_at = header.occurred_at;
  source_id = header.source.source_id;
  source_type = header.source.source_type;
  sequence = header.source.sequence;
  item_id = header.item_id;
  operation_run_id = header.operation_run_id;
  payload = payload;
}

-- `EventEnvelope.model_validate`, when the type, the version and the payload are known.
abbrev pub envelope : Pydantic → EventType → Payload → Fields → Option EventEnvelope
envelope p event_type payload candidate = read_header p candidate >>= λ header.
    guard has_required_ids (with_header event_type payload header)
