-- ===== src/Ingestion/Refusals.antt =====
-- What `ingest_event` of backend/app/ingestion/service.py lets in.
use kosmohack_final.Ingestion.Store.{store_event}
use kosmohack_final.Events.Envelope.{validate_event}
use kosmohack_final.Events.Json.{Json}
use kosmohack_final.Security.Integrity.{Primitives}
use kosmohack_final.Events.Schema.{Pydantic}
use kosmohack_final.Events.Validation.{Python}
use kosmohack_final.Ingestion.Sources.{
  check_method, is_valid, is_valid, get_source, present, authenticate_source, Credentials, Settings,
  Transport,
}
use kosmohack_final.Ingestion.Ingest.{
  warn_sequence, save_sequence, ingest_event, reject_event, record_rejected_attempt, admit_event,
  calibration_system, station_of, line_of, is_outside_scope, is_allowed_type, check_scope,
}
use kosmohack_final.Events.{EventEnvelope}
use kosmohack_final.Models.Log.{EventType, EventSource}
use kosmohack_final.Ingestion.{
  IngestionResult, Text, ℕ, Encoding, EventType, EventEnvelope, Bool, EventSource, Tables,
}
use kosmohack_final.Session.{
  fresh, request, pure, lift, modify, or_else, err, Result, ok, raise_if, Session, TraceqError,
  Action, ◌>>=◌, ◌>>◌,
}
use kosmohack_final.Prelude.{
  sym, subst, ap, ◌⊎◌, ◌∙◌, Option-cases, Text, ℕ, inl, inr, Bool-cases, refl, arith, true, false,
  ◌≡◌, Bool, some,
}

abbrev pub after : {D A B : Type 0} → (A → Action D B) → Result A × Session D → Result B × Session D
after f r = elim r.0 [ ok a ↦ f a r.1 | err x ↦ (err x, r.1) ]

outcome_ok :
    {D A B : Type 0} (f : A → Action D B) (r : Result A × Session D) (b : B)
    → (after f r).0 ≡ ok b
    → (a : A) × (r ≡ (ok a, r.1)) × (after f r ≡ f a r.1)
outcome_ok f (ok a, t) b h = (a, refl, refl)
outcome_ok f (err x, t) b h = absurd (ground arith)

pub Result-cases :
    {A : Type 0} (r : Result A) → ((a : A) × (r ≡ ok a)) ⊎ ((x : TraceqError) × (r ≡ err x))
Result-cases (ok a) = inl (a, refl)
Result-cases (err x) = inr (x, refl)

-- An action that succeeds has come through its first part.
pub bind_ok :
    {D A B : Type 0} (m : Action D A) (f : A → Action D B) (s : Session D) (b : B)
    → (after f (m s)).0 ≡ ok b
    → (a : A) × (m s ≡ (ok a, (m s).1)) × (after f (m s) ≡ f a (m s).1)
bind_ok m f s b e = outcome_ok f (m s) b e

abbrev handled :
    {D A : Type 0} → (TraceqError → Action D A) → Result A × Session D → Result A × Session D
handled h r = elim r.0 [ ok a ↦ (ok a, r.1) | err x ↦ h x r.1 ]

-- A success after a handler that never succeeds is that of the action.
handled_ok :
    {D A : Type 0} (h : TraceqError → Action D A) (r : Result A × Session D) (a : A)
    → ((x : TraceqError) (s : Session D) (b : A) → (h x s).0 ≡ ok b → ⊥)
    → (handled h r).0 ≡ ok a
    → handled h r ≡ r
handled_ok h (ok b, s) a never e = refl
handled_ok h (err x, s) a never e = absurd (never x s a e)

raise_if_ok :
    {D : Type 0} (b : Bool) (x : TraceqError) (s : Session D) (u : Unit {0})
    → (raise_if b x s).0 ≡ ok u
    → b ≡ false
raise_if_ok true x s u e = absurd (ground arith)
raise_if_ok false x s u e = refl

-- What the scope of a source lets through.
abbrev pub MaySend : EventSource → EventEnvelope → Type 0
MaySend source event =
    (event.source_id ≡ source.source_id)
    × (event.source_type ≡ source.source_type)
    × (is_allowed_type event.event_type source.allowed_event_types ≡ true)
    × (is_outside_scope source.allowed_line_ids (line_of event.payload) ≡ false)
    × (is_outside_scope source.allowed_station_ids (station_of event.payload) ≡ false)
    × (event.event_type ≡ EventType.control_device_invalidated
        → source.source_type ≡ calibration_system)

check_scope-MaySend :
    (source : EventSource) (event : EventEnvelope) (s : Session Tables) (u : Unit {0})
    → (check_scope source event s).0 ≡ ok u
    → MaySend source event
check_scope-MaySend source event s u e = (
  ground (arith, e),
  ground (arith, e),
  ground (arith, e),
  ground (arith, e),
  ground (arith, e),
  λ t. ground (arith, e, t),
)

check_scope-session :
    (source : EventSource) (event : EventEnvelope) (s : Session Tables)
    → (check_scope source event s).1 ≡ s
check_scope-session source event s = ground arith

module _ (transport : Transport) (settings : Settings) (py : Python) (pydantic : Pydantic)
    (prims : Primitives) (enc : Encoding) (now ingest_seq : ℕ) (c : Credentials)
    (value : Json) where
  -- The request until the event is stored.
  abbrev pub admitted : Tables → Result EventEnvelope × Session Tables
  admitted db =
      or_else (admit_event transport settings py pydantic now c value)
        (reject_event transport settings py pydantic c value) (fresh db)

  -- A refusal is never a success.
  reject_fails :
      (error : TraceqError) (s : Session Tables) (event : EventEnvelope)
      → (reject_event transport settings py pydantic c value error s).0 ≡ ok event
      → ⊥
  unfolding record_rejected_attempt
  reject_fails error s event e = ground (arith, e)

  pub admitted_admit :
      (db : Tables) (event : EventEnvelope)
      → (admitted db).0 ≡ ok event
      → admitted db ≡ admit_event transport settings py pydantic now c value (fresh db)
  admitted_admit db event e =
      handled_ok (reject_event transport settings py pydantic c value)
        (admit_event transport settings py pydantic now c value (fresh db)) event reject_fails e

  pub authentic :
      (db : Tables) (source : EventSource)
      → (authenticate_source transport settings now c value (fresh db)).0 ≡ ok source
      → (id : Text) × (present c.source_id ≡ some id)
        × (get_source id db ≡ some source)
        × (is_valid now source ≡ true)
        × ((check_method transport settings now source id c value (fresh db)).0 ≡ ok tt)
        × ((authenticate_source transport settings now c value (fresh db)).1
            ≡ (check_method transport settings now source id c value (fresh db)).1)
  unfolding authenticate_source
  authentic db source e = elim (Option-cases (present c.source_id)) [
    | inl absent ↦ absurd (ground (arith, e))
    | inr (id, named) ↦ elim (Option-cases (get_source id db)) [
      | inl unknown ↦ absurd (ground (arith, e))
      | inr (found, there) ↦ elim (Bool-cases (is_valid now found)) [
        | inr not_valid ↦ absurd (ground (arith, e))
        | inl valid ↦
            elim (Result-cases
              (check_method transport settings now found id c value (fresh db)).0) [
                | inr (x, refused) ↦ absurd (ground (arith, e))
                | inl (u, passed) ↦
                    let same : found ≡ source = ground (arith, e) in
                    (
                      id,
                      named,
                      there ∙ ap some same,
                      subst (λ s. is_valid now s ≡ true) same valid,
                      ap (λ s. (check_method transport settings now s id c value (fresh db)).0)
                            (sym same)
                          ∙ passed,
                      subst
                          (λ s.
                            (authenticate_source transport settings now c value (fresh db)).1
                            ≡ (check_method transport settings now s id c value (fresh db)).1)
                          same (ground (arith, named, there, valid, passed)),
                    )
              ]
      ]
    ]
  ]

  -- What the first part of the request goes on with, once the source is known.
  abbrev then_check : EventSource → EventEnvelope → Action Tables EventEnvelope
  then_check source event = do
    check_scope source event
    modify (warn_sequence source event)
    modify (save_sequence source event.sequence)
    pure event

  abbrev pub with_source : EventSource → Action Tables EventEnvelope
  with_source source = do event ← lift (validate_event py pydantic value); then_check source event

  pub checked_source :
      (source : EventSource) (s : Session Tables) (event : EventEnvelope)
      → (with_source source s).0 ≡ ok event
      → (validate_event py pydantic value ≡ ok event)
        × MaySend source event
        × ((with_source source s).1 ≡ record s {
          current = save_sequence source event.sequence (warn_sequence source event s.current);
        })
  checked_source source s event e = elim (Result-cases (validate_event py pydantic value)) [
    | inr (x, invalid) ↦ absurd (ground (arith, e))
    | inl (found, valid) ↦ elim (Result-cases (check_scope source found s).0) [
      | inr (x, refused) ↦ absurd (ground (arith, e))
      | inl (u, passed) ↦
          let same : found ≡ event = ground (arith, e, valid, passed) in
          (
            valid ∙ ap ok same,
            subst (MaySend source) same (check_scope-MaySend source found s u passed),
            subst
                (λ x. (with_source source s).1 ≡ record s {
                  current = save_sequence source x.sequence (warn_sequence source x s.current);
                })
                same (ground (arith, valid, passed, check_scope-session source found s)),
          )
    ]
  ]

  -- An event is taken in only from a source that is known under the identity in the headers and valid
  -- at the time, whose credentials pass, for an event that is valid and that the source may send.
  pub ingested_only_allowed :
      (db : Tables) (r : IngestionResult)
      → (request
          (ingest_event transport settings py pydantic prims enc now ingest_seq c value)
          db).0
        ≡ ok r
      → (id : Text) × (source : EventSource) × (event : EventEnvelope) × (present c.source_id
          ≡ some id)
        × (get_source id db ≡ some source)
        × (is_valid now source ≡ true)
        × ((check_method transport settings now source id c value (fresh db)).0 ≡ ok tt)
        × (validate_event py pydantic value ≡ ok event)
        × MaySend source event
  unfolding ingest_event
  ingested_only_allowed db r e =
      let store = store_event prims enc now ingest_seq in
      let (event, admits, _) = bind_ok (λ s. admitted db) store (fresh db) r e in
      let same = admitted_admit db event (ap (λ x. x.0) admits) in
      let passes = ap (λ x. x.0) (sym same ∙ admits) in
      let (source, known, rest) =
        bind_ok (authenticate_source transport settings now c value) with_source (fresh db) event
          passes in
      let (id, named, there, valid, method, _) = authentic db source (ap (λ x. x.0) known) in
      let (read, may, _) =
        checked_source source (authenticate_source transport settings now c value (fresh db)).1
          event (ap (λ x. x.0) (sym rest) ∙ passes) in
      (id, source, event, named, there, valid, method, read, may)
