-- ===== src/Quality/BirthWindow.antt =====
-- backend/app/quality/birth_window.py: the interval in which a defect was born, and its evidence.
-- Instants are numbers of microseconds.
pub mod Laws
pub mod Evidence
use kosmohack_final.Prelude.{
  ℕ, Text, Option, none, some, List, [], ◌∷◌, ◌++◌, Bool, true, false, not, ◌&&◌, ◌||◌, ltb, leb,
  opt_eq, is_none, select, cons_if, ◌==◌, if◌then◌else◌,
}
use kosmohack_final.Quality.Records.{
  no_defect, defect_detected, impossible_to_assess, InspectionResult, TrustStatus, trusted,
  untrusted, unassessable, conflicted, invalidated, Reason, ObservationValue, OperationValue,
  MachineValue, ActionValue,
}
use kosmohack_final.Quality.Trust.{scope_covers}

pub data EvidenceType : Type 0 where
  first_trusted_defect last_trusted_good : EvidenceType
  operation_in_window machine_warning operator_action : EvidenceType
  conflicting_observation device_validity poor_observation missing_check : EvidenceType

pub data EvidenceRole : Type 0 where
  boundary context limitation : EvidenceRole

-- The `details` of each kind of evidence.
pub data Details : Type 0 where
  of_defect : (defect_type : Text) → (component_instance_id : Option Text) → Details
  of_good : (control_point_id : Text) → Details
  of_operation : (run operation operator equipment : Option Text) → Details
  of_machine : (equipment_id state : Text) → Details
  of_action : (operator_id action_type : Text) → Details
  of_observation : TrustStatus → List Reason → Details
  of_missing_check : (control_point_id : Text) → (before_operation_id : Text) → Details
  of_invalidation : (control_device_id : Option Text) → List Reason → Details

pub record EvidenceValue : Type 0 where
  pub evidence_type : EvidenceType
  pub evidence_role : EvidenceRole
  pub source_event_id : Option Text
  pub occurred_at : Option ℕ
  pub details : Details

pub data WindowStatus : Type 0 where
  bounded left_open evidence_invalidated : WindowStatus

pub record BirthWindowResult : Type 0 where
  pub status : WindowStatus
  pub left_boundary_at : Option ℕ
  pub right_boundary_at : Option ℕ
  pub evidence : List EvidenceValue

-- `defect_observation`: the keys of it that are read.
pub record DefectReading : Type 0 where
  pub event_id : Text
  pub occurred_at : ℕ
  pub defect_type : Text
  pub component_instance_id : Option Text

abbrev pub is_trusted : TrustStatus → Bool
is_trusted trusted = true
is_trusted untrusted = false
is_trusted unassessable = false
is_trusted conflicted = false
is_trusted invalidated = false

abbrev pub is_good : InspectionResult → Bool
is_good no_defect = true
is_good defect_detected = false
is_good impossible_to_assess = false

-- The condition of the `candidates` comprehension.
pub is_candidate : DefectReading → ObservationValue → Bool
is_candidate defect obs =
    ltb obs.occurred_at defect.occurred_at
    && (is_trusted obs.trust_status
        && (is_good obs.inspection_result
            && (scope_covers obs.inspection_scope defect.defect_type defect.component_instance_id
                && ((is_none obs.component_instance_id
                      || opt_eq obs.component_instance_id defect.component_instance_id)
                    || is_none defect.component_instance_id))))

-- `max(candidates, key=occurred_at, default=None)`: the first of the latest.
pub later : ObservationValue → ObservationValue → ObservationValue
later best obs = if ltb best.occurred_at obs.occurred_at then obs else best

pub latest_from : ObservationValue → List ObservationValue → ObservationValue
latest_from best [] = best
latest_from best (obs ∷ rest) = latest_from (later best obs) rest

pub latest : List ObservationValue → Option ObservationValue
latest [] = none
latest (obs ∷ rest) = some (latest_from obs rest)

unfoldable pub last_good : DefectReading → List ObservationValue → Option ObservationValue
unfolding is_candidate latest latest_from later
last_good defect observations = latest (select (is_candidate defect) observations)

abbrev pub time_of : Option ObservationValue → Option ℕ
time_of none = none
time_of (some obs) = some obs.occurred_at

-- `inside`
unfoldable pub inside : Option ℕ → ℕ → ℕ → Bool
inside none defect_time value = leb value defect_time
inside (some left) defect_time value = ltb left value && leb value defect_time

abbrev pub marker : OperationValue → Option ℕ
marker run = elim run.finished_at [ some t ↦ some t | none ↦ run.started_at ]

abbrev pub operation_entry : OperationValue → ℕ → EvidenceValue
operation_entry run time = record {
  evidence_type = operation_in_window;
  evidence_role = context;
  source_event_id = run.source_event_id;
  occurred_at = some time;
  details = of_operation run.operation_run_id run.operation_id run.operator_id run.equipment_id;
}

abbrev pub operation_row :
    (ℕ → Bool) → OperationValue → Option ℕ → List EvidenceValue → List EvidenceValue
operation_row within run none others = others
operation_row within run (some time) others =
    cons_if (within time) (operation_entry run time) others

pub operation_evidence : (ℕ → Bool) → List OperationValue → List EvidenceValue
operation_evidence within [] = []
operation_evidence within (run ∷ rest) =
    operation_row within run (marker run) (operation_evidence within rest)

-- The states "normal" and "idle".
abbrev pub normal : Text
normal = 2

abbrev pub idle : Text
idle = 3

abbrev pub machine_entry : MachineValue → EvidenceValue
machine_entry machine = record {
  evidence_type = machine_warning;
  evidence_role = context;
  source_event_id = some machine.event_id;
  occurred_at = some machine.occurred_at;
  details = of_machine machine.equipment_id machine.state;
}

pub machine_evidence : (ℕ → Bool) → List MachineValue → List EvidenceValue
machine_evidence within [] = []
machine_evidence within (machine ∷ rest) =
    cons_if
      (within machine.occurred_at && not ((machine.state == normal) || (machine.state == idle)))
      (machine_entry machine) (machine_evidence within rest)

abbrev pub action_entry : ActionValue → EvidenceValue
action_entry action = record {
  evidence_type = operator_action;
  evidence_role = context;
  source_event_id = some action.event_id;
  occurred_at = some action.occurred_at;
  details = of_action action.operator_id action.action_type;
}

pub action_evidence : (ℕ → Bool) → List ActionValue → List EvidenceValue
action_evidence within [] = []
action_evidence within (action ∷ rest) =
    cons_if (within action.occurred_at) (action_entry action) (action_evidence within rest)

-- The `kind` of a limitation, by its trust status.
abbrev pub limitation_kind : TrustStatus → EvidenceType
limitation_kind conflicted = conflicting_observation
limitation_kind invalidated = device_validity
limitation_kind trusted = poor_observation
limitation_kind untrusted = poor_observation
limitation_kind unassessable = poor_observation

pub limitation_evidence : (ℕ → Bool) → List ObservationValue → List EvidenceValue
limitation_evidence within [] = []
limitation_evidence within (obs ∷ rest) =
    cons_if (within obs.occurred_at && not (is_trusted obs.trust_status))
      (record {
        evidence_type = limitation_kind obs.trust_status;
        evidence_role = limitation;
        source_event_id = some obs.event_id;
        occurred_at = some obs.occurred_at;
        details = of_observation obs.trust_status obs.trust_reasons;
      })
      (limitation_evidence within rest)

abbrev pub good_evidence : Option ObservationValue → List EvidenceValue
good_evidence none = []
good_evidence (some good) =
    record {
      evidence_type = last_trusted_good;
      evidence_role = boundary;
      source_event_id = some good.event_id;
      occurred_at = some good.occurred_at;
      details = of_good good.control_point_id;
    }
    ∷ []

abbrev pub defect_evidence : DefectReading → EvidenceValue
defect_evidence defect = record {
  evidence_type = first_trusted_defect;
  evidence_role = boundary;
  source_event_id = some defect.event_id;
  occurred_at = some defect.occurred_at;
  details = of_defect defect.defect_type defect.component_instance_id;
}

-- `"BOUNDED" if left else "LEFT_OPEN"`: every datetime is true.
abbrev pub window_status : Option ℕ → WindowStatus
window_status none = left_open
window_status (some _) = bounded

unfoldable pub calculate_birth_window :
    DefectReading
    → (observations : List ObservationValue) → (operations : List OperationValue)
    → (machine_events : List MachineValue) → (operator_actions : List ActionValue)
    → (limitations : List EvidenceValue) → BirthWindowResult
unfolding operation_evidence machine_evidence action_evidence limitation_evidence
calculate_birth_window defect observations operations machine_events operator_actions limitations =
    let good = last_good defect observations in
    let left = time_of good in
    let within = inside left defect.occurred_at in
    record {
      status = window_status left;
      left_boundary_at = left;
      right_boundary_at = some defect.occurred_at;
      evidence =
          good_evidence good
          ++ (defect_evidence defect
              ∷ (operation_evidence within operations
                  ++ (machine_evidence within machine_events
                      ++ (action_evidence within operator_actions
                          ++ (limitation_evidence within observations ++ limitations)))));
    }
