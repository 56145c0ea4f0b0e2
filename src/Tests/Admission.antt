-- ===== src/Tests/Admission.antt =====
-- backend/app/domain/events.py and backend/app/ingestion/service.py on the report of a machine's state
-- by a source that signs. The signature of a request is its nonce.
use kosmohack_final.Ingestion.Refusals.{ingested_only_allowed, MaySend}
use kosmohack_final.Ingestion.Nonces.{nonce_once}
use kosmohack_final.Session.{ok, fresh, err, TraceqError, request}
use kosmohack_final.Events.Valid.{validated_IsValid, HasIds, IsValidPayload}
use kosmohack_final.Ingestion.Store.{content_hash, store_event}
use kosmohack_final.Ingestion.Ingest.{ingest_event}
use kosmohack_final.Events.Contract.{read_payload}
use kosmohack_final.Events.Schema.{Pydantic}
use kosmohack_final.Events.Validation.{normalize_legacy, Python}
use kosmohack_final.Models.Log.{AuthMethod, SourceStatus, EventType, EventSource}
use kosmohack_final.Security.Integrity.{Primitives}
use kosmohack_final.Ingestion.Sources.{
  check_method, is_valid, get_source, present, authenticate_source, Settings, Credentials,
  Transport,
}
use kosmohack_final.Events.Json.{end, text, entry, number, object, Json}
use kosmohack_final.Events.{type_of, machine, EventEnvelope}
use kosmohack_final.Events.Envelope.{validate_event}
use kosmohack_final.Events.Key as Key
use kosmohack_final.Ingestion.{accepted_result, Encoding, Tables}
use kosmohack_final.Prelude.{refl, ◌≡◌, length, Text, false, true, Option, [], ◌∷◌, ℕ, some, none}

abbrev read_text : ℕ → Option ℕ → Json → Option Text
read_text least most (text t) = some t
read_text least most _ = none

abbrev read_number : Json → Option ℕ
read_number (number n) = some n
read_number _ = none

abbrev pydantic : Pydantic
pydantic = record {
  string = read_text;
  integer = λ least v. read_number v;
  amount = read_number;
  fraction = read_number;
  datetime = read_number;
  scope = λ v. none;
}

abbrev py : Python
py = record { equal = λ a b. false; dict_of = λ v. none }

abbrev value : Json
value = object (
    entry Key.event_id (text 80) (
      entry Key.event_type (text 4) (
        entry Key.schema_version (text 1) (
          entry Key.occurred_at (number 10) (
            entry Key.source
              (object (entry Key.source_id (text 5) (entry Key.source_type (text 3) end)))
              (entry Key.payload
                (object (entry Key.equipment_id (text 7) (entry Key.state (text 2) end))) end))))))

abbrev event : EventEnvelope
event = record {
  event_id = 80;
  event_type = EventType.machine_state;
  schema_version = 1;
  occurred_at = 10;
  source_id = 5;
  source_type = 3;
  sequence = none;
  item_id = none;
  operation_run_id = none;
  payload = machine (record { equipment_id = 7; state = 2; code = none });
}

abbrev transport : Transport
transport = record {
  parse_time = λ t. some t;
  sign = λ secret timestamp nonce body. nonce;
  lower = λ t. t;
  token_hash = λ t. t;
  show = λ v. 1;
}

abbrev settings : Settings
settings = record {
  source_hmac_secrets = some ((5, 77) ∷ []);
  demo_mode = false;
  source_demo_token = none;
  source_timestamp_tolerance_seconds = 300;
}

abbrev source : EventSource
source = record {
  source_id = 5;
  source_type = 3;
  enabled = true;
  status = SourceStatus.active;
  auth_method = AuthMethod.hmac_v1;
  token_hash = none;
  allowed_event_types = EventType.machine_state ∷ [];
  allowed_line_ids = [];
  allowed_station_ids = [];
  valid_from = none;
  valid_to = none;
  revoked_at = none;
  last_source_sequence = none;
}

abbrev credentials : Credentials
credentials = record {
  source_id = some 5;
  token = none;
  timestamp = some 15;
  nonce = some 9;
  signature = some 9;
}

abbrev prims : Primitives
prims = record {
  hmac_sha256 = λ key message. message;
  json_bytes = λ m. m.event_id ∷ m.integrity_seq ∷ [];
  utf8 = λ t. t ∷ [];
  integrity_key = 1 ∷ [];
}

abbrev encoding : Encoding
encoding = record {
  canonical_json = λ e. e.event_id ∷ [];
  sha256_hex = λ bytes. length bytes;
  encrypt_event = λ plaintext aad. (plaintext, []);
  aes_key_id = 1;
}

abbrev db : Tables
db = record {
  sources = source ∷ [];
  nonces = [];
  raw_events = [];
  streams = [];
  projections = [];
  invalidations = [];
  observations = [];
  attempts = [];
  alerts = [];
  audits = [];
}

validated_IsValid_example :
    (type_of event.payload ≡ event.event_type) × IsValidPayload event.payload × HasIds event
unfolding validate_event normalize_legacy read_payload
validated_IsValid_example = validated_IsValid py pydantic value event refl

ingested_only_allowed_example :
    (id : Text) × (s : EventSource) × (e : EventEnvelope) × (present credentials.source_id
      ≡ some id)
    × (get_source id db ≡ some s)
    × (is_valid 20 s ≡ true)
    × ((check_method transport settings 20 s id credentials value (fresh db)).0 ≡ ok tt)
    × (validate_event py pydantic value ≡ ok e)
    × MaySend s e
unfolding validate_event normalize_legacy read_payload ingest_event store_event authenticate_source
ingested_only_allowed_example =
    ingested_only_allowed transport settings py pydantic prims encoding 20 1 credentials value db
      (accepted_result event (content_hash prims encoding event) []) refl

nonce_once_example :
    let db' =
      (request
        (ingest_event transport settings py pydantic prims encoding 20 1 credentials value)
        db).1 in
    (x : TraceqError) × ((request
        (ingest_event transport settings py pydantic prims encoding 25 2 credentials value)
        db').0
      ≡ err x)
unfolding validate_event normalize_legacy read_payload ingest_event store_event authenticate_source
nonce_once_example =
    nonce_once transport settings py pydantic prims encoding 20 1 25 2 credentials credentials value
      value db (accepted_result event (content_hash prims encoding event) []) 5 9 source refl refl
      refl refl refl refl refl
