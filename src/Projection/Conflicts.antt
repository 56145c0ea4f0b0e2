-- ===== src/Projection/Conflicts.antt =====
-- Opposing inspections, backend/app/projections/rebuild.py: readings of one session, or of one five
-- minutes, at one control point and component form a group.
use kosmohack_final.Quality.Records.{
  InspectionResult, no_defect, defect_detected, impossible_to_assess, Reason, conflicted,
  ObservationValue,
}
use kosmohack_final.Quality.Records.{Reason, conflicted, InspectionResult, ObservationValue}
use kosmohack_final.Prelude.{
  true, not, [], any, opt_eq, ◌/◌, ◌∷◌, false, ◌==◌, if◌then◌else◌, map, select, Option, ◌&&◌, Text,
  List, Bool, ℕ, some, none,
}

-- `session or bucket`
pub data Occasion : Type 0 where
  in_session : Text → Occasion
  in_bucket : ℕ → Occasion

-- 300 seconds
abbrev pub bucket_size : ℕ
bucket_size = 300000000

abbrev pub occasion_at : ℕ → Option Text → Occasion
occasion_at time none = in_bucket (time / bucket_size)
occasion_at time (some session) =
    if session == 0 then in_bucket (time / bucket_size) else in_session session

pub record GroupKey : Type 0 where
  pub occasion : Occasion
  pub control_point_id : Text
  pub component_instance_id : Option Text

abbrev pub group_key : ObservationValue → GroupKey
group_key obs = record {
  occasion = occasion_at obs.occurred_at obs.capture_session_id;
  control_point_id = obs.control_point_id;
  component_instance_id = obs.component_instance_id;
}

abbrev pub occasion_eq : Occasion → Occasion → Bool
occasion_eq (in_session a) (in_session b) = a == b
occasion_eq (in_bucket a) (in_bucket b) = a == b
occasion_eq _ _ = false

abbrev pub key_eq : GroupKey → GroupKey → Bool
key_eq a b =
    occasion_eq a.occasion b.occasion
    && ((a.control_point_id == b.control_point_id)
        && opt_eq a.component_instance_id b.component_instance_id)

abbrev pub result_eq : InspectionResult → InspectionResult → Bool
result_eq no_defect no_defect = true
result_eq defect_detected defect_detected = true
result_eq impossible_to_assess impossible_to_assess = true
result_eq _ _ = false

-- The group of a key among the observations.
abbrev pub group_of : GroupKey → List ObservationValue → List ObservationValue
group_of key observations = select (λ o. key_eq (group_key o) key) observations

-- `len({results}) > 1`
abbrev pub has_two_results : List ObservationValue → Bool
has_two_results [] = false
has_two_results (o ∷ os) = any (λ x. not (result_eq x.inspection_result o.inspection_result)) os

abbrev pub as_conflicted : ObservationValue → ObservationValue
as_conflicted obs = record obs {
  trust_status = conflicted;
  trust_reasons = Reason.equivalent_observations_conflict ∷ [];
}

abbrev pub mark_conflict : List ObservationValue → ObservationValue → ObservationValue
mark_conflict all obs =
    if has_two_results (group_of (group_key obs) all) then as_conflicted obs else obs

unfoldable pub mark_conflicts : List ObservationValue → List ObservationValue
mark_conflicts observations = map (mark_conflict observations) observations
