-- ===== src/Ingestion/Projections.antt =====
-- What `ingest_event` of backend/app/ingestion/service.py does to the projections that an event
-- concerns: that of its item, and those that a control device invalidation affects.
use kosmohack_final.Events.{
  EventEnvelope, Payload, registered, started, finished, inspected, machine, action,
  device_invalidated, Invalidation,
}
use kosmohack_final.Models.Quality.{Observation}
use kosmohack_final.Models.Log.{ProjectionStatus, ProjectionState}
use kosmohack_final.Prelude.{
  is_some, leb, if◌then◌else◌, select, ◌&&◌, ◌==◌, contains, map, none, [], opt_eq, find, update,
  max, ◌∷◌, some, Bool, Option, ℕ, ◌++◌, List, Text,
}
use kosmohack_final.Ingestion.{Tables}

-- The attributes of a `ProjectionState` object that are read or set here. A column default is set when
-- the object is flushed; until then the attribute of a new object is None.
pub record ProjectionObject : Type 0 where
  pub item_id : Text
  pub latest_raw_ingest_seq : Option ℕ
  pub status : Option ProjectionStatus

-- `ProjectionState(item_id=event.item_id)`
abbrev pub new_object : Text → ProjectionObject
new_object id = record { item_id = id; latest_raw_ingest_seq = none; status = none }

abbrev pub loaded : ProjectionState → ProjectionObject
loaded p = record {
  item_id = p.item_id;
  latest_raw_ingest_seq = some p.latest_raw_ingest_seq;
  status = some p.status;
}

abbrev pub object_of : Text → Option ProjectionState → ProjectionObject
object_of id none = new_object id
object_of id (some p) = loaded p

-- Python's `max` of an attribute and a number: of None it raises a TypeError.
abbrev pub max_or_raise : Option ℕ → ℕ → Option ℕ
max_or_raise none n = none
max_or_raise (some m) n = some (max m n)

abbrev pub with_latest : ProjectionObject → Option ℕ → Option ProjectionObject
with_latest o none = none
with_latest o (some n) =
    some (record o { latest_raw_ingest_seq = some n; status = some ProjectionStatus.stale })

-- What the flush writes: the attributes that are set, and the defaults of the columns.
abbrev pub or_zero : Option ℕ → ℕ
or_zero none = 0
or_zero (some n) = n

abbrev pub or_stale : Option ProjectionStatus → ProjectionStatus
or_stale none = ProjectionStatus.stale
or_stale (some status) = status

abbrev pub inserted : ProjectionObject → ProjectionState
inserted o = record {
  item_id = o.item_id;
  latest_raw_ingest_seq = or_zero o.latest_raw_ingest_seq;
  last_projected_ingest_seq = 0;
  projection_version = 0;
  status = or_stale o.status;
  last_successful_rebuild_at = none;
  last_error = none;
}

abbrev pub updated : ProjectionObject → ProjectionState → ProjectionState
updated o p = record p {
  latest_raw_ingest_seq = or_zero o.latest_raw_ingest_seq;
  status = or_stale o.status;
}

abbrev pub flush : ProjectionObject → List ProjectionState → List ProjectionState
flush o rows =
    if is_some (find (λ p. p.item_id == o.item_id) rows)
    then update (λ p. p.item_id == o.item_id) (updated o) rows
    else rows ++ inserted o ∷ []

abbrev pub flushed : Option ProjectionObject → List ProjectionState → Option (List ProjectionState)
flushed none rows = none
flushed (some o) rows = some (flush o rows)

-- The projection of the event's item falls behind; `none` is an exception.
abbrev pub touch_item : ℕ → Option Text → List ProjectionState → Option (List ProjectionState)
touch_item seq none rows = some rows
touch_item seq (some id) rows =
    if id == 0
    then some rows
    else (let o = object_of id (find (λ p. p.item_id == id) rows) in
        flushed (with_latest o (max_or_raise o.latest_raw_ingest_seq seq)) rows)

abbrev pub is_affected : Invalidation → Observation → Bool
is_affected i o =
    opt_eq o.control_device_id (some i.device_id)
    && (leb i.affected_from o.occurred_at && leb o.occurred_at i.affected_to)

-- Each item with an observation of the device in the period falls behind.
abbrev pub mark_stale : List Text → List ProjectionState → List ProjectionState
mark_stale items rows =
    update (λ p. contains p.item_id items) (λ p. record p { status = ProjectionStatus.stale }) rows

-- The items that have an observation of an invalidated device in the period.
abbrev pub affected_by : Payload → Tables → List Text
affected_by (registered _) db = []
affected_by (started _) db = []
affected_by (finished _) db = []
affected_by (inspected _) db = []
affected_by (machine _) db = []
affected_by (action _) db = []
affected_by (device_invalidated i) db =
    map (λ o. o.item_id) (select (is_affected i) db.observations)

abbrev pub invalidate : EventEnvelope → Payload → Tables → Tables
invalidate event (registered _) db = db
invalidate event (started _) db = db
invalidate event (finished _) db = db
invalidate event (inspected _) db = db
invalidate event (machine _) db = db
invalidate event (action _) db = db
invalidate event (device_invalidated i) db = record db {
  invalidations =
      db.invalidations
      ++ record {
        source_event_id = some event.event_id;
        device_id = i.device_id;
        affected_from = i.affected_from;
        affected_to = i.affected_to;
        reason = i.reason;
        invalidation_type = i.invalidation_type;
        supporting_evidence_refs = i.supporting_evidence_refs;
      }
        ∷ [];
  projections = mark_stale (affected_by (device_invalidated i) db) db.projections;
}
