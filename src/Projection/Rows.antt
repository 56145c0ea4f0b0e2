-- ===== src/Projection/Rows.antt =====
-- The rows that backend/app/projections/rebuild.py deletes and writes again, the item, and the
-- inspections that its route asked for and that did not take place.
use kosmohack_final.Quality.BirthWindow.{Details, EvidenceRole, EvidenceType, EvidenceValue}
use kosmohack_final.Models.Quality.{
  Disposition, Observation, DefectObservation, OperatorAction, MachineEvent, Item, StructureStatus,
  OperationRun,
}
use kosmohack_final.Quality.Records.{
  DurationUnit, Defect, MachineValue, RunReason, OperationValue, ActionValue, ObservationValue,
  Duration,
}
use kosmohack_final.Security.Integrity.{order_by}
use kosmohack_final.Models.Routing.{RouteDefinition, RouteRevision, RouteStep}
use kosmohack_final.Events.{ItemRegisteredPayload}
use kosmohack_final.Prelude.{
  update, non_empty, map, opt_eq, leb, or_text, ◌&&◌, or_opt, ◌==◌, any, ◌∷◌, true, not, ◌++◌, [],
  find, if◌then◌else◌, select, Bool, Option, ℕ, List, Text, some, none,
}
use kosmohack_final.Projection.{Tables, Environment}
use kosmohack_final.Projection.Replay.{Values, ItemValue}

abbrev pub delete_rows : Text → Tables → Tables
delete_rows item_id db = record db {
  defects = select (λ r. not (r.item_id == item_id)) db.defects;
  observations = select (λ r. not (r.item_id == item_id)) db.observations;
  operation_runs = select (λ r. not (r.item_id == item_id)) db.operation_runs;
  machine_events = select (λ r. not (r.item_id == item_id)) db.machine_events;
  operator_actions = select (λ r. not (r.item_id == item_id)) db.operator_actions;
}

-- "ROUTE-DEFAULT"
abbrev pub route_default : Text
route_default = 1

abbrev pub id_of_revision : Option RouteRevision → Option ℕ
id_of_revision none = none
id_of_revision (some r) = some r.id

-- The revision of the number, or the active one of the route. Zero is no number.
abbrev pub revision_on : Option RouteDefinition → Option ℕ → List RouteRevision → Option ℕ
revision_on none number revisions = none
revision_on (some route) none revisions = route.active_revision_id
revision_on (some route) (some number) revisions =
    if number == 0
    then route.active_revision_id
    else id_of_revision (find (λ r. (r.route_id == route.id) && (r.revision == number)) revisions)

abbrev pub route_revision_of : ItemRegisteredPayload → Tables → Option ℕ
route_revision_of p db =
    revision_on (find (λ r. r.code == or_text p.route_id route_default) db.routes) p.route_revision
      db.revisions

abbrev pub structure_of : ItemRegisteredPayload → Tables → StructureStatus
structure_of p db =
    if any (λ s. (s.assembly_id == p.product_definition_id) && (s.revision == p.revision))
      db.snapshots
    then StructureStatus.available
    else StructureStatus.degraded

abbrev pub get_item : Text → Tables → Option Item
get_item item_id db = find (λ i. i.item_id == item_id) db.items

abbrev pub new_item : Text → ItemValue → Tables → Item
new_item item_id value db = record {
  item_id = item_id;
  product_definition_id = value.payload.product_definition_id;
  revision = value.payload.revision;
  line_id = value.payload.line_id;
  route_revision_id = route_revision_of value.payload db;
  status = Disposition.in_process;
  structure_status = structure_of value.payload db;
  registered_at = value.registered_at;
}

abbrev pub rewrite_item : ItemValue → Item → Item
rewrite_item value i = record i {
  product_definition_id = value.payload.product_definition_id;
  revision = value.payload.revision;
  line_id = value.payload.line_id;
}

-- The route revision that is looked up for an item that is there is not written.
abbrev pub write_item : Text → ItemValue → Option Item → Tables → Tables
write_item item_id value none db = record db { items = db.items ++ new_item item_id value db ∷ [] }
write_item item_id value (some item) db = record db {
  items = update (λ i. i.item_id == item_id) (rewrite_item value) db.items;
}

unfoldable pub register_item : Text → Option ItemValue → Tables → Tables
register_item item_id none db = db
register_item item_id (some value) db = write_item item_id value (get_item item_id db) db

abbrev pub value_of : Option Duration → Option ℕ
value_of none = none
value_of (some d) = some d.value

abbrev pub unit_of : Option Duration → Option DurationUnit
unit_of none = none
unit_of (some d) = some d.unit

abbrev pub meaning_of : Option Duration → Option Text
meaning_of none = none
meaning_of (some d) = some d.meaning

-- `run.get("run_reason", "production")`
abbrev pub or_production : Option RunReason → RunReason
or_production none = RunReason.production
or_production (some r) = r

-- The inner `none` is no nonconformance, the outer one a ValueError.
abbrev pub nonconformance_of : Environment → Option Text → Option (Option ℕ)
nonconformance_of env none = some none
nonconformance_of env (some t) =
    if t == 0 then some none else elim (env.parse_uuid t) [ none ↦ none | some id ↦ some (some id) ]

abbrev pub run_row : Text → OperationValue → Option ℕ → OperationRun
run_row item_id run nonconformance = record {
  operation_run_id = run.operation_run_id;
  item_id = item_id;
  operation_id = run.operation_id;
  operator_id = run.operator_id;
  equipment_id = run.equipment_id;
  station_id = run.station_id;
  started_at = run.started_at;
  finished_at = run.finished_at;
  completion_status = run.completion_status;
  duration_value = value_of run.duration;
  duration_unit = unit_of run.duration;
  duration_meaning = meaning_of run.duration;
  previous_operation_run_id = run.previous_operation_run_id;
  run_reason = or_production run.run_reason;
  rework_for_nonconformance_id = nonconformance;
}

-- The primary key must be there, and no row of another item may have it.
abbrev pub is_taken : Option Text → List OperationRun → Bool
is_taken none rows = true
is_taken (some id) rows = any (λ r. opt_eq r.operation_run_id (some id)) rows

-- `none` is an exception: a nonconformance that is not a UUID, or a key that is taken.
abbrev pub add_run :
    Text → OperationValue → Option (Option ℕ) → List OperationRun → Option (List OperationRun)
add_run item_id run none rows = none
add_run item_id run (some nonconformance) rows =
    if is_taken run.operation_run_id rows
    then none
    else some (rows ++ run_row item_id run nonconformance ∷ [])

abbrev pub add_runs :
    Environment → Text → List OperationValue → List OperationRun → Option (List OperationRun)
add_runs env item_id [] rows = some rows
add_runs env item_id (run ∷ runs) rows =
    elim (add_run item_id run (nonconformance_of env run.rework_for_nonconformance_id) rows) [
      | none ↦ none
      | some added ↦ add_runs env item_id runs added
    ]

abbrev pub observation_row : Environment → Text → ObservationValue → Observation
observation_row env item_id v = record {
  id = env.uuid5 v.event_id;
  event_id = v.event_id;
  item_id = item_id;
  operation_run_id = v.operation_run_id;
  occurred_at = v.occurred_at;
  inspection_result = v.inspection_result;
  observation_quality = v.observation_quality;
  control_point_id = v.control_point_id;
  confidence = v.confidence;
  inspection_scope = v.inspection_scope;
  component_instance_id = v.component_instance_id;
  control_device_id = v.control_device_id;
  capture_session_id = v.capture_session_id;
  evidence_refs = v.evidence_refs;
  trust_status = v.trust_status;
  trust_reasons = v.trust_reasons;
}

abbrev pub defect_row : Environment → Text → ObservationValue → Defect → DefectObservation
defect_row env item_id v d = record {
  observation_id = env.uuid5 v.event_id;
  item_id = item_id;
  defect_type = d.defect_type;
  component_instance_id = or_opt d.component_instance_id v.component_instance_id;
  description = d.description;
  severity = d.severity;
}

abbrev pub defect_rows : Environment → Text → List ObservationValue → List DefectObservation
defect_rows env item_id [] = []
defect_rows env item_id (v ∷ vs) =
    map (defect_row env item_id v) v.defects ++ defect_rows env item_id vs

abbrev pub machine_row : Text → MachineValue → MachineEvent
machine_row item_id v = record {
  event_id = v.event_id;
  item_id = item_id;
  operation_run_id = v.operation_run_id;
  equipment_id = v.equipment_id;
  state = v.state;
  code = v.code;
  occurred_at = v.occurred_at;
}

abbrev pub action_row : Text → ActionValue → OperatorAction
action_row item_id v = record {
  event_id = v.event_id;
  item_id = item_id;
  operation_run_id = v.operation_run_id;
  operator_id = v.operator_id;
  action_type = v.action_type;
  occurred_at = v.occurred_at;
}

-- All rows but the runs, which are given.
abbrev pub add_rows : Environment → Text → Values → List OperationRun → Tables → Tables
add_rows env item_id v runs db = record db {
  operation_runs = runs;
  observations = db.observations ++ map (observation_row env item_id) v.observations;
  defects = db.defects ++ defect_rows env item_id v.observations;
  machine_events = db.machine_events ++ map (machine_row item_id) v.machines;
  operator_actions = db.operator_actions ++ map (action_row item_id) v.actions;
}

-- `operations.get(id)`: of two runs of one operation the later one stands in the dictionary.
abbrev pub last_run : Text → List OperationValue → Option OperationValue
last_run id [] = none
last_run id (r ∷ rs) = elim (last_run id rs) [
  | some later ↦ some later
  | none ↦ if opt_eq r.operation_id (some id) then some r else none
]

abbrev pub start_of : Option OperationValue → Option ℕ
start_of none = none
start_of (some r) = r.started_at

abbrev pub end_of : Option OperationValue → Option ℕ
end_of none = none
end_of (some r) = r.finished_at

-- `lower is None or time >= lower`
abbrev pub not_before : Option ℕ → ℕ → Bool
not_before none time = true
not_before (some lower) time = leb lower time

abbrev pub is_present : Text → Option ℕ → ℕ → List ObservationValue → Bool
is_present point lower upper observations =
    any
      (λ o.
        (o.control_point_id == point)
        && (not_before lower o.occurred_at && leb o.occurred_at upper))
      observations

abbrev pub missing_check : Text → Text → ℕ → EvidenceValue
missing_check point operation_id time = record {
  evidence_type = EvidenceType.missing_check;
  evidence_role = EvidenceRole.limitation;
  source_event_id = none;
  occurred_at = some time;
  details = Details.of_missing_check point operation_id;
}

abbrev pub check_step :
    (step next : RouteStep)
    → List OperationValue
    → List ObservationValue
    → Option Text
    → Option ℕ
    → List EvidenceValue
check_step step next operations observations none started_at = []
check_step step next operations observations (some point) none = []
check_step step next operations observations (some point) (some time) =
    if step.required_inspection
      && (non_empty point
          && not
              (is_present point (end_of (last_run step.operation_id operations)) time observations))
    then missing_check point next.operation_id time ∷ []
    else []

-- The loop over the steps but the last.
abbrev pub check_steps :
    List RouteStep → List OperationValue → List ObservationValue → List EvidenceValue
check_steps [] operations observations = []
check_steps (step ∷ []) operations observations = []
check_steps (step ∷ (next ∷ rest)) operations observations =
    check_step step next operations observations step.control_point_id
      (start_of (last_run next.operation_id operations))
    ++ check_steps (next ∷ rest) operations observations

abbrev pub steps_of : ℕ → List RouteStep → List RouteStep
steps_of revision steps =
    order_by (λ s. s.position) (select (λ s. s.route_revision_id == revision) steps)

abbrev pub limitations_on :
    Option ℕ → List OperationValue → List ObservationValue → Tables → List EvidenceValue
limitations_on none operations observations db = []
limitations_on (some revision) operations observations db =
    check_steps (steps_of revision db.steps) operations observations

unfoldable pub missing_check_limitations :
    Option Item → List OperationValue → List ObservationValue → Tables → List EvidenceValue
missing_check_limitations none operations observations db = []
missing_check_limitations (some item) operations observations db =
    limitations_on item.route_revision_id operations observations db
