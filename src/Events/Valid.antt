-- ===== src/Events/Valid.antt =====
-- What holds of the events that backend/app/domain/events.py lets through.
use kosmohack_final.Events.Validation.{◌>>=◌ as and_then}
use kosmohack_final.Events.Key as Key
use kosmohack_final.Events.Reading.{read_header, envelope, with_header, Header}
use mathlib.Core.Option.{some-injective}
use kosmohack_final.Session.{ErrorCode, traceq_error, err, TraceqError, Result, ok}
use kosmohack_final.Events.Envelope.{
  validate_known, validate_type, validate_candidate, validate_event,
}
use kosmohack_final.Events.Validation.{
  is_version_1, normalize_legacy, exception, is_hashable, event_type_of, schema_error, or_err,
  is_run_event, has_required_ids, is_item_event, Python,
}
use kosmohack_final.Quality.Trust.{is_empty}
use kosmohack_final.Events.Contract.{
  invalidation_fields, valid_period, read_control_device_invalidated, inspection_fields,
  read_inspection_result, read_operator_action, read_operation_finished, read_operation_started,
  read_item_registered, payload_as, valid_defects, read_payload, read_machine_state,
}
use kosmohack_final.Quality.Records.{shows_defect, InspectionPayload, InspectionResult}
use kosmohack_final.Events.Schema.{guard, ◌>>=◌}
use kosmohack_final.Events.Json.{
  null, array, text, number, boolean, get_or_null, object, Fields, Json,
}
use kosmohack_final.Events.{
  EventEnvelope, action, machine, finished, started, registered, device_invalidated, type_of,
  inspected, Payload,
}
use kosmohack_final.Models.Log.{EventType}
use kosmohack_final.Events.Schema.{Pydantic}
use kosmohack_final.Prelude.{
  if◌then◌else◌, not, inr, truthy, leb, Bool-cases, ℕ, Bool, ◌⊎◌, inl, true, ◌≤◌, false, refl,
  arith, Option, subst, ◌↔◌, ◌≡◌, some, none,
}

-- What the validator of the payload's model asks for.
abbrev pub IsValidPayload : Payload → Type 0
IsValidPayload (inspected i) =
    (i.inspection_result ≡ InspectionResult.defect_detected) ↔ (is_empty i.defects ≡ false)
IsValidPayload (device_invalidated i) = i.affected_from ≤ i.affected_to
IsValidPayload (registered _) = Unit
IsValidPayload (started _) = Unit
IsValidPayload (finished _) = Unit
IsValidPayload (machine _) = Unit
IsValidPayload (action _) = Unit

abbrev Suits : EventType → Payload → Type 0
Suits t p = (type_of p ≡ t) × IsValidPayload p

result_cases :
    (r : InspectionResult) → (r ≡ InspectionResult.defect_detected) ⊎ (shows_defect r ≡ false)
result_cases InspectionResult.defect_detected = inl refl
result_cases InspectionResult.no_defect = inr refl
result_cases InspectionResult.impossible_to_assess = inr refl

inspection-IsValid : (i : InspectionPayload) → valid_defects i ≡ true → IsValidPayload (inspected i)
inspection-IsValid i h = elim (result_cases i.inspection_result) [
  | inl found ↦ (
    λ _. elim (Bool-cases (is_empty i.defects)) [
      | inl none_there ↦ absurd (ground (arith, h, found, none_there))
      | inr some_there ↦ some_there
    ],
    λ _. found,
  )
  | inr other ↦ (
    λ found. absurd (ground (arith, other, found)),
    λ some_there. absurd (ground (arith, h, other, some_there)),
  )
]

as-Suits :
    {A : Type 0} (t : EventType) (f : A → Payload) (o : Option A) (r : Payload)
    → ((a : A) → o ≡ some a → Suits t (f a))
    → payload_as f o ≡ some r
    → Suits t r
as-Suits t f none r h e = absurd (ground arith)
as-Suits t f (some a) r h e = subst (Suits t) (some-injective (f a) r e) (h a refl)

guarded :
    {A : Type 0} (test : A → Bool) (o : Option A) (a : A)
    → (o >>= guard test) ≡ some a
    → test a ≡ true
guarded test none a e = absurd (ground arith)
guarded test (some b) a e = elim (Bool-cases (test b)) [
  | inl passed ↦ ground (arith, passed, e)
  | inr failed ↦ absurd (ground (arith, failed, e))
]

leb→le : (a b : ℕ) → leb a b ≡ true → a ≤ b
leb→le a b h = ground arith

payload-Suits :
    (p : Pydantic) (t : EventType) (value : Json) (r : Payload)
    → read_payload p t value ≡ some r
    → Suits t r
unfolding read_payload
payload-Suits p EventType.item_registered value r =
    as-Suits _ registered (read_item_registered p value) r (λ a h. (refl, tt))
payload-Suits p EventType.operation_started value r =
    as-Suits _ started (read_operation_started p value) r (λ a h. (refl, tt))
payload-Suits p EventType.operation_finished value r =
    as-Suits _ finished (read_operation_finished p value) r (λ a h. (refl, tt))
payload-Suits p EventType.machine_state value r =
    as-Suits _ machine (read_machine_state p value) r (λ a h. (refl, tt))
payload-Suits p EventType.operator_action value r =
    as-Suits _ action (read_operator_action p value) r (λ a h. (refl, tt))
payload-Suits p EventType.inspection_result value r =
    as-Suits _ inspected (read_inspection_result p value) r
      (λ i h. (refl, inspection-IsValid i (guarded valid_defects (inspection_fields p value) i h)))
payload-Suits p EventType.control_device_invalidated value r =
    as-Suits _ device_invalidated (read_control_device_invalidated p value) r (λ i h. (
      refl,
      leb→le i.affected_from i.affected_to (guarded valid_period (invalidation_fields p value) i h),
    ))

-- An event names the item that it is about, and the run of an operation, where its type asks for it.
abbrev pub HasIds : EventEnvelope → Type 0
HasIds e =
    (is_item_event e.event_type ≡ true → truthy e.item_id ≡ true)
    × (is_run_event e.event_type ≡ true → truthy e.operation_run_id ≡ true)

abbrev IsValid : EventEnvelope → Type 0
IsValid e = (type_of e.payload ≡ e.event_type) × IsValidPayload e.payload × HasIds e

ids-HasIds : (e : EventEnvelope) → has_required_ids e ≡ true → HasIds e
ids-HasIds e h = ((λ a. ground (arith, h, a)), (λ a. ground (arith, h, a)))

bind_ok :
    {A B : Type 0} (m : Result A) (f : A → Result B) (b : B)
    → and_then m f ≡ ok b
    → (a : A) × (m ≡ ok a) × (f a ≡ ok b)
bind_ok (ok a) f b e = (a, refl, e)
bind_ok (err x) f b e = absurd (ground arith)

or_err_ok : {A : Type 0} (x : TraceqError) (o : Option A) (a : A) → or_err x o ≡ ok a → o ≡ some a
or_err_ok x none a e = absurd (ground arith)
or_err_ok x (some b) a e = ground (arith, e)

else_ok :
    {A : Type 0} (b : Bool) (x : TraceqError) (m : Result A) (a : A)
    → (if b then err x else m) ≡ ok a
    → m ≡ ok a
else_ok true x m a e = absurd (ground arith)
else_ok false x m a e = e

header-IsValid :
    (t : EventType) (r : Payload) (o : Option Header) (e : EventEnvelope)
    → Suits t r
    → (o >>= λ header. guard has_required_ids (with_header t r header)) ≡ some e
    → IsValid e
header-IsValid t r none e s h = absurd (ground arith)
header-IsValid t r (some header) e s h =
    elim (Bool-cases (has_required_ids (with_header t r header))) [
      | inl has ↦
          subst IsValid
            (some-injective (with_header t r header) e
              (subst (λ b. (if b then some (with_header t r header) else none) ≡ some e) has h))
            (s.0, s.1, ids-HasIds (with_header t r header) has)
      | inr lacks ↦ absurd (ground (arith, h, lacks))
    ]

module _ (py : Python) (p : Pydantic) where
  candidate-IsValid :
      (t : EventType) (candidate : Fields) (e : EventEnvelope)
      → validate_candidate py p t candidate ≡ ok e
      → IsValid e
  candidate-IsValid t candidate e h =
      let raw = get_or_null Key.payload candidate in
      let (r, read, rest) =
        bind_ok (or_err schema_error (read_payload p t raw))
          (λ r. or_err schema_error (envelope p t r candidate)) e h in
      header-IsValid t r (read_header p candidate) e
        (payload-Suits p t raw r (or_err_ok schema_error (read_payload p t raw) r read))
        (or_err_ok schema_error (envelope p t r candidate) e rest)

  fields-IsValid :
      (value : Fields) (e : EventEnvelope)
      → validate_type py p (get_or_null Key.event_type value) value ≡ ok e
      → IsValid e
  fields-IsValid value e h =
      let kind = get_or_null Key.event_type value in
      let version = get_or_null Key.schema_version value in
      let (t, _, known) =
        bind_ok (or_err (traceq_error ErrorCode.unsupported_event_type 422) (event_type_of kind))
          (λ t. validate_known py p t version value) e
          (else_ok (not (is_hashable kind)) exception _ e h) in
      let (candidate, _, rest) = bind_ok (normalize_legacy py value) (validate_candidate py p t) e (
        else_ok (not (is_version_1 version)) _ _ e
          (else_ok (not (is_hashable version)) exception _ e known)) in
      candidate-IsValid t candidate e rest

  -- Whatever JSON value comes in, an event that is let through carries the payload of its type, which
  -- meets the rule of its model, and names the item and the run that its type asks for.
  pub validated_IsValid :
      (value : Json) (e : EventEnvelope)
      → validate_event py p value ≡ ok e
      → (type_of e.payload ≡ e.event_type) × IsValidPayload e.payload × HasIds e
  unfolding validate_event
  validated_IsValid (object value) e h = fields-IsValid value e h
  validated_IsValid null e h = absurd (ground arith)
  validated_IsValid (boolean _) e h = absurd (ground arith)
  validated_IsValid (number _) e h = absurd (ground arith)
  validated_IsValid (text _) e h = absurd (ground arith)
  validated_IsValid (array _) e h = absurd (ground arith)
