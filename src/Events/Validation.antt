-- ===== src/Events/Validation.antt =====
-- `_normalize_legacy` and `validate_event` of backend/app/domain/events.py. The text of an error is
-- not modelled.
use kosmohack_final.Events.Schema.{literal}
use kosmohack_final.Events.Json.{
  null, no_items, number, boolean, is_null, entry, remove, array, text, end, set, object, get,
  get_or_null, Fields, Json,
}
use kosmohack_final.Session.{err, ErrorCode, traceq_error, ok, Result, TraceqError}
use kosmohack_final.Events.{[], EventEnvelope}
use kosmohack_final.Models.Log.{EventType}
use kosmohack_final.Events.Key as Key
use kosmohack_final.Prelude.{
  [], truthy, ◌∷◌, ◌&&◌, ◌==◌, false, is_some, if◌then◌else◌, not, true, Bool, Option, Text, some,
  none,
}

-- What Python itself does with values of JSON.
pub record Python : Type 0 where
  -- `a == b`
  pub equal : Json → Json → Bool
  -- `dict(value)` of a true value that is no object; `none` is an exception.
  pub dict_of : Json → Option Fields

abbrev pub schema_error : TraceqError
schema_error = traceq_error ErrorCode.event_schema_validation_error 422

-- An exception that no handler expects.
abbrev pub exception : TraceqError
exception = traceq_error ErrorCode.internal_error 500

infixl 5 ◌>>=◌
abbrev pub ◌>>=◌ : {A B : Type 0} → Result A → (A → Result B) → Result B
ok a >>= f = f a
err e >>= f = err e

abbrev pub or_err : {A : Type 0} → TraceqError → Option A → Result A
or_err e none = err e
or_err e (some a) = ok a

-- A list or an object in a set lookup is a TypeError.
abbrev pub is_hashable : Json → Bool
is_hashable (array _) = false
is_hashable (object _) = false
is_hashable null = true
is_hashable (boolean _) = true
is_hashable (number _) = true
is_hashable (text _) = true

-- In the order of `EVENT_TYPES`.
abbrev pub event_type_of : Json → Option EventType
event_type_of = literal (
    EventType.control_device_invalidated ∷ EventType.inspection_result ∷ EventType.item_registered
    ∷ EventType.machine_state ∷ EventType.operation_finished ∷ EventType.operation_started
    ∷ EventType.operator_action ∷ [])

-- "1.0"
abbrev pub version_1 : Text
version_1 = 1

abbrev pub is_version_1 : Json → Bool
is_version_1 (text t) = t == version_1
is_version_1 null = false
is_version_1 (boolean _) = false
is_version_1 (number _) = false
is_version_1 (array _) = false
is_version_1 (object _) = false

-- The unit "s" and the meaning "active_processing".
abbrev pub seconds : Text
seconds = 2

abbrev pub active_processing : Text
active_processing = 1

abbrev pub is_item_event : EventType → Bool
is_item_event EventType.item_registered = true
is_item_event EventType.operation_started = true
is_item_event EventType.operation_finished = true
is_item_event EventType.inspection_result = true
is_item_event EventType.machine_state = false
is_item_event EventType.operator_action = false
is_item_event EventType.control_device_invalidated = false

abbrev pub is_run_event : EventType → Bool
is_run_event EventType.operation_started = true
is_run_event EventType.operation_finished = true
is_run_event EventType.item_registered = false
is_run_event EventType.inspection_result = false
is_run_event EventType.machine_state = false
is_run_event EventType.operator_action = false
is_run_event EventType.control_device_invalidated = false

-- `required_envelope_ids`
abbrev pub has_required_ids : EventEnvelope → Bool
has_required_ids e =
    not (is_item_event e.event_type && not (truthy e.item_id))
    && not (is_run_event e.event_type && not (truthy e.operation_run_id))

abbrev pub duration_value : Json → Json
duration_value v = object (
    entry Key.value v
      (entry Key.unit (text seconds) (entry Key.meaning (text active_processing) end)))

abbrev pub normalize_duration : Fields → Fields
normalize_duration payload = elim (get Key.duration_seconds payload) [
  | none ↦ payload
  | some v ↦
      if is_some (get Key.duration payload)
      then payload
      else set Key.duration (duration_value v) (remove Key.duration_seconds payload)
]

module _ (py : Python) where
  -- `dict(candidate.get("payload") or {})`
  abbrev pub payload_dict : Json → Option Fields
  payload_dict (object fs) = some fs
  payload_dict null = some end
  payload_dict (boolean b) = if b then py.dict_of (boolean b) else some end
  payload_dict (number n) = if n == 0 then some end else py.dict_of (number n)
  payload_dict (text t) = if t == 0 then some end else py.dict_of (text t)
  payload_dict (array xs) = if no_items xs then some end else py.dict_of (array xs)

  -- One turn of the loop over the identities: the candidate and its payload.
  abbrev pub lift_identity : Text → Fields × Fields → Result (Fields × Fields)
  lift_identity key (candidate, payload) =
      let legacy = get_or_null key payload in
      let rest = remove key payload in
      if is_null (get_or_null key candidate) && not (is_null legacy)
      then ok (set key legacy candidate, rest)
      else if not (is_null legacy) && not (py.equal (get_or_null key candidate) legacy)
      then err schema_error
      else ok (candidate, rest)

  unfoldable pub normalize_legacy : Fields → Result Fields
  normalize_legacy value = do
    payload ← or_err exception (payload_dict (get_or_null Key.payload value))
    (c, p) ← lift_identity Key.item_id (value, payload)
    (candidate, rest) ← lift_identity Key.operation_run_id (c, p)
    ok (set Key.payload (object (normalize_duration rest)) candidate)
