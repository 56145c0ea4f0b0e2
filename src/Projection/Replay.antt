-- ===== src/Projection/Replay.antt =====
-- The replay of backend/app/projections/rebuild.py: the order of an item's events, their
-- decryption and the values that they leave.
use kosmohack_final.Ingestion.{build_aad}
use kosmohack_final.Quality.Trust.{evaluate_trust, default_policy, TrustPolicyValue}
use kosmohack_final.Models.Log.{RawEvent}
use kosmohack_final.Events.{
  device_invalidated, action, machine, inspected, finished, started, registered, Payload,
  EventEnvelope, OperationFinishedPayload, OperationStartedPayload, ItemRegisteredPayload,
}
use kosmohack_final.Models.Routing.{TrustPolicy}
use kosmohack_final.Prelude.{
  leb, ◌||◌, any, false, ◌&&◌, opt_eq, ◌==◌, truthy, ltb, true, ◌++◌, ℕ, ◌∷◌, if◌then◌else◌, Bool,
  select, [], List, Text, Option, some, none,
}
use kosmohack_final.Quality.Records.{
  ActionValue, MachineValue, ObservationValue, OperationValue, InspectionPayload,
}
use kosmohack_final.Projection.{Tables, Environment}

-- `ORDER BY` over several columns: the keys are compared one after the other. Texts are numbers in
-- the order of the database.
abbrev pub leq : List ℕ → List ℕ → Bool
leq [] ys = true
leq (x ∷ xs) [] = false
leq (x ∷ xs) (y ∷ ys) = ltb x y || ((x == y) && leq xs ys)

-- `nullslast`
abbrev pub nulls_last : Option ℕ → List ℕ
nulls_last none = 1 ∷ 0 ∷ []
nulls_last (some n) = 0 ∷ n ∷ []

abbrev pub order_key : RawEvent → List ℕ
order_key e =
    e.occurred_at
    ∷ e.source_id
    ∷ (nulls_last e.source_sequence ++ (e.received_at ∷ e.event_id ∷ []))

unfoldable pub precedes : RawEvent → RawEvent → Bool
precedes a b = leq (order_key a) (order_key b)

abbrev pub insert_event : RawEvent → List RawEvent → List RawEvent
insert_event e [] = e ∷ []
insert_event e (x ∷ xs) =
    let rest = insert_event e xs in if precedes e x then e ∷ x ∷ xs else x ∷ rest

abbrev pub sort_events : List RawEvent → List RawEvent
sort_events [] = []
sort_events (e ∷ es) = insert_event e (sort_events es)

unfoldable pub raws_of : Text → List RawEvent → List RawEvent
raws_of item_id events = sort_events (select (λ e. opt_eq e.item_id (some item_id)) events)

-- `_decrypt`
unfoldable pub decrypt : Environment → RawEvent → Option EventEnvelope
decrypt env raw =
    elim (env.decrypt_event raw.payload_ciphertext raw.nonce (
      build_aad raw.event_id raw.event_type raw.source_id raw.schema_version raw.received_at
        raw.occurred_at raw.item_id raw.crypto_key_id raw.crypto_profile_id)) [
          | none ↦ none
          | some plaintext ↦ env.loads plaintext
        ]

abbrev pub decrypted :
    RawEvent
    → Option EventEnvelope
    → Option (List (RawEvent × Payload))
    → Option (List (RawEvent × Payload))
decrypted raw (some event) (some rest) = some ((raw, event.payload) ∷ rest)
decrypted raw none rest = none
decrypted raw (some event) none = none

abbrev pub decrypt_all : Environment → List RawEvent → Option (List (RawEvent × Payload))
decrypt_all env [] = some []
decrypt_all env (raw ∷ raws) = decrypted raw (decrypt env raw) (decrypt_all env raws)

abbrev pub higher_version : TrustPolicy → Option TrustPolicy → TrustPolicy
higher_version p none = p
higher_version p (some q) = if ltb p.policy_version q.policy_version then q else p

-- The active policy of the control point with the highest version.
abbrev pub active_policy : Text → List TrustPolicy → Option TrustPolicy
active_policy point [] = none
active_policy point (p ∷ ps) =
    let rest = active_policy point ps in
    if (p.control_point_id == point) && p.active then some (higher_version p rest) else rest

abbrev pub policy_value : Option TrustPolicy → TrustPolicyValue
policy_value none = default_policy
policy_value (some p) = record {
  allowed_observation_quality = p.allowed_observation_quality;
  confidence_required = p.confidence_required;
  min_confidence = p.min_confidence;
  requires_valid_device = p.requires_valid_device;
  media_required = p.media_required;
}

unfoldable pub trust_policy : Text → Tables → TrustPolicyValue
trust_policy point db = policy_value (active_policy point db.policies)

-- A device without a name is never invalidated.
abbrev pub is_invalidated : Option Text → ℕ → Tables → Bool
is_invalidated device time db =
    truthy device
    && any
        (λ i.
          opt_eq (some i.device_id) device && (leb i.affected_from time && leb time i.affected_to))
        db.invalidations

pub record ItemValue : Type 0 where
  pub payload : ItemRegisteredPayload
  pub registered_at : ℕ

-- The variables that the loop over the events fills.
pub record Values : Type 0 where
  pub item_value : Option ItemValue
  pub operations : List OperationValue
  pub observations : List ObservationValue
  pub machines : List MachineValue
  pub actions : List ActionValue

abbrev pub no_values : Values
no_values = record {
  item_value = none;
  operations = [];
  observations = [];
  machines = [];
  actions = [];
}

abbrev pub empty_run : Option Text → Option Text → OperationValue
empty_run item_id run_id = record {
  operation_run_id = run_id;
  item_id = item_id;
  operation_id = none;
  operator_id = none;
  equipment_id = none;
  station_id = none;
  started_at = none;
  finished_at = none;
  completion_status = none;
  duration = none;
  previous_operation_run_id = none;
  run_reason = none;
  rework_for_nonconformance_id = none;
  source_event_id = none;
}

-- `setdefault` and `update` of the run with the identity.
abbrev pub update_run :
    Option Text
    → OperationValue
    → (OperationValue → OperationValue)
    → List OperationValue
    → List OperationValue
update_run id default f [] = f default ∷ []
update_run id default f (r ∷ rs) =
    let rest = update_run id default f rs in
    if opt_eq r.operation_run_id id then f r ∷ rs else r ∷ rest

abbrev pub start_run : RawEvent → OperationStartedPayload → OperationValue → OperationValue
start_run raw p run = record run {
  operation_id = some p.operation_id;
  operator_id = some p.operator_id;
  equipment_id = some p.equipment_id;
  station_id = some p.station_id;
  previous_operation_run_id = p.previous_operation_run_id;
  run_reason = some p.run_reason;
  rework_for_nonconformance_id = p.rework_for_nonconformance_id;
  item_id = raw.item_id;
  operation_run_id = raw.operation_run_id;
  started_at = some raw.occurred_at;
  source_event_id = some raw.event_id;
}

abbrev pub finish_run : RawEvent → OperationFinishedPayload → OperationValue → OperationValue
finish_run raw p run = record run {
  finished_at = some raw.occurred_at;
  completion_status = some p.completion_status;
  duration = p.duration;
  source_event_id = some raw.event_id;
}

unfoldable pub observe : Tables → RawEvent → InspectionPayload → ObservationValue
observe db raw p =
    let trust =
      evaluate_trust p (trust_policy p.control_point_id db) true
        (is_invalidated p.control_device_id raw.occurred_at db) false in
    record {
      payload = p;
      item_id = raw.item_id;
      operation_run_id = raw.operation_run_id;
      event_id = raw.event_id;
      occurred_at = raw.occurred_at;
      trust_status = trust.status;
      trust_reasons = trust.reasons;
    }

-- One turn of the loop. The payload of a stored event is of the event's type.
abbrev pub replay_event : Text → Tables → RawEvent × Payload → Values → Values
replay_event item_id db (raw, registered p) v = record v {
  item_value = some (record { payload = p; registered_at = raw.occurred_at });
}
replay_event item_id db (raw, started p) v = record v {
  operations =
      update_run raw.operation_run_id (empty_run raw.item_id raw.operation_run_id) (start_run raw p)
        v.operations;
}
replay_event item_id db (raw, finished p) v = record v {
  operations =
      update_run raw.operation_run_id (empty_run (some item_id) raw.operation_run_id)
        (finish_run raw p) v.operations;
}
replay_event item_id db (raw, inspected p) v = record v {
  observations = v.observations ++ observe db raw p ∷ [];
}
replay_event item_id db (raw, machine p) v = record v {
  machines =
      v.machines
      ++ record {
        equipment_id = p.equipment_id;
        state = p.state;
        code = p.code;
        item_id = raw.item_id;
        operation_run_id = raw.operation_run_id;
        event_id = raw.event_id;
        occurred_at = raw.occurred_at;
      }
        ∷ [];
}
replay_event item_id db (raw, action p) v = record v {
  actions =
      v.actions
      ++ record {
        operator_id = p.operator_id;
        action_type = p.action_type;
        item_id = raw.item_id;
        operation_run_id = raw.operation_run_id;
        event_id = raw.event_id;
        occurred_at = raw.occurred_at;
      }
        ∷ [];
}
replay_event item_id db (raw, device_invalidated _) v = v

abbrev pub replay : Text → Tables → List (RawEvent × Payload) → Values → Values
replay item_id db [] v = v
replay item_id db (e ∷ es) v = replay item_id db es (replay_event item_id db e v)
