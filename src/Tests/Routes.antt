-- ===== src/Tests/Routes.antt =====
-- backend/app/api/routes.py on a route with two revisions.
use kosmohack_final.Routes.Revisions.Numbers.{import_leaves_two_active}
use kosmohack_final.Quality.Records.{unscoped}
use kosmohack_final.Routes.Revisions.Active.{activate-OneActive, OneActive}
use kosmohack_final.Models.Routing.{RouteRevision, RevisionStatus, RouteDefinition}
use kosmohack_final.Routes.Revisions.{
  get_revision, import_route, activate_revision, database_error, Tables,
}
use kosmohack_final.Routes.Steps.{
  required_has_control_point, validate_steps_iff, control_points, Distinct, StepInput,
  validate_steps,
}
use kosmohack_final.Nonconformance.Handlers.{Caller}
use kosmohack_final.Session.{ok, err, request}
use kosmohack_final.Prelude.{
  refl, map, arith, ◌≢◌, ◌↔◌, none, [], is_some, ◌∷◌, true, Option, ◌≡◌, some, Text, List, ℕ,
}

abbrev step : Text → Option Text → StepInput
step operation point = record {
  operation_id = operation;
  operation_name = operation;
  control_point_id = point;
  required = is_some point;
  inspection_scope = unscoped;
  trust_policy_id = none;
}

abbrev steps : List StepInput
steps = step 21 (some 31) ∷ step 22 none ∷ []

abbrev revision : ℕ → RevisionStatus → RouteRevision
revision id status = record {
  id = id;
  route_id = 1;
  revision = id;
  status = status;
  immutable_after = none;
  created_by = none;
}

abbrev route : RouteDefinition
route = record { id = 1; code = 8; name = 9; active_revision_id = some 1 }

abbrev two_revisions : Tables
two_revisions = record {
  routes = route ∷ [];
  revisions = revision 1 RevisionStatus.active ∷ revision 2 RevisionStatus.draft ∷ [];
  steps = [];
  audits = [];
}

abbrev engineer : Caller
engineer = record { user_id = 5; session_id = 6; request_id = 7 }

validate_steps_iff_example :
    (validate_steps steps ≡ ok tt)
    ↔ (Distinct (map (λ s. s.operation_id) steps) × Distinct (control_points steps))
validate_steps_iff_example = validate_steps_iff steps

activate-OneActive_example :
    let db' = (request (activate_revision 100 engineer 1 2) two_revisions).1 in
    OneActive db'.routes db'.revisions
activate-OneActive_example =
    activate-OneActive 100 engineer 1 2 two_revisions (refl, (refl, tt))
      (λ h. refl, (λ h. absurd (ground arith), tt))

import_leaves_two_active_example :
    let db' = (request (import_route 100 engineer 2 3 8 9 steps true) two_revisions).1 in
    (get_revision 1 db'.revisions ≡ some (revision 1 RevisionStatus.active))
    × ((v : RouteRevision) × (get_revision 3 db'.revisions ≡ some v)
        × (v.status ≡ RevisionStatus.active)
        × (v.route_id ≡ 1)
        × (v.id ≢ 1))
unfolding validate_steps required_has_control_point
import_leaves_two_active_example =
    import_leaves_two_active 100 engineer 2 3 1 8 9 steps two_revisions route
      (revision 1 RevisionStatus.active) refl refl refl refl refl refl refl

-- A revision that was active before is not activated again: the database refuses the write.
superseded_stays :
    let old = record (revision 2 RevisionStatus.superseded) { immutable_after = some 50 } in
    let db = record two_revisions { revisions = revision 1 RevisionStatus.active ∷ old ∷ [] } in
    request (activate_revision 100 engineer 1 2) db ≡ (err database_error, db)
unfolding activate_revision
superseded_stays = refl
