-- ===== src/Routes/Revisions.antt =====
-- The handlers of backend/app/api/routes.py that write. A handler is given the identities of the
-- rows that it may add.
pub mod Active
pub mod Numbers
use kosmohack_final.Prelude.{
  ◌&&◌, true, ◌||◌, any, max, ◌==◌, is_some, if◌then◌else◌, [], false, ◌++◌, not, update, some,
  find, ◌∷◌, ◌+◌, none, Bool, Option, Text, ℕ, List,
}
use kosmohack_final.Session.{
  TraceqError, Action, gets, pure, raise, modify, commit, lift, or_raise, raise_if, skip, ◌>>=◌,
  ◌>>◌, ok, err, traceq_error, not_found_error, ErrorCode,
}
use kosmohack_final.Models.Routing.{RouteDefinition, RouteRevision, RevisionStatus, RouteStep}
use kosmohack_final.Models.Log.{AuditEntry, AuditAction, AuditOutcome, AuditTarget}
use kosmohack_final.Nonconformance.Handlers.{Caller, audit}
use kosmohack_final.Routes.Steps.{StepInput, validate_steps, required_has_control_point}

pub record Tables : Type 0 where
  pub routes : List RouteDefinition
  pub revisions : List RouteRevision
  pub steps : List RouteStep
  pub audits : List AuditEntry

abbrev pub get_route : ℕ → List RouteDefinition → Option RouteDefinition
get_route id routes = find (λ (r : RouteDefinition). r.id == id) routes

abbrev pub get_revision : ℕ → List RouteRevision → Option RouteRevision
get_revision id revisions = find (λ (r : RouteRevision). r.id == id) revisions

-- `select(func.max(revision)).where(route_id == route.id)`, or 0
unfoldable pub last_revision : ℕ → List RouteRevision → ℕ
last_revision route_id [] = 0
last_revision route_id (r ∷ rs) =
    let rest = last_revision route_id rs in
    if r.route_id == route_id then max r.revision rest else rest

-- `enumerate(steps, start=position)`
pub rows_of : (revision_id position : ℕ) → List StepInput → List RouteStep
rows_of revision_id position [] = []
rows_of revision_id position (step ∷ steps) =
    record {
      route_revision_id = revision_id;
      position = position;
      operation_id = step.operation_id;
      operation_name = step.operation_name;
      control_point_id = step.control_point_id;
      required_inspection = step.required;
      inspection_scope = step.inspection_scope;
      trust_policy_id = step.trust_policy_id;
    }
    ∷ rows_of revision_id (position + 1) steps

abbrev pub draft_of : Caller → (revision_id route_id current : ℕ) → RouteRevision
draft_of caller revision_id route_id current = record {
  id = revision_id;
  route_id = route_id;
  revision = current + 1;
  status = RevisionStatus.draft;
  immutable_after = none;
  created_by = some caller.user_id;
}

-- `_create_revision`
unfoldable pub add_revision :
    Caller → (revision_id : ℕ) → (route_id : ℕ) → List StepInput → Action Tables RouteRevision
unfolding rows_of
add_revision caller revision_id route_id steps = do
  lift (validate_steps steps)
  current ← gets (λ db. last_revision route_id db.revisions)
  let revision = draft_of caller revision_id route_id current
  modify (λ db. record db {
    revisions = db.revisions ++ revision ∷ [];
    steps = db.steps ++ rows_of revision_id 1 steps;
  })
  pure revision

abbrev pub new_route : (route_id : ℕ) → (code name : Text) → RouteDefinition
new_route route_id code name = record {
  id = route_id;
  code = code;
  name = name;
  active_revision_id = none;
}

-- The bodies of the requests; each step has passed `required_has_control_point`.
abbrev pub valid_body : List StepInput → Bool
valid_body [] = false
valid_body (step ∷ steps) = not (any (λ s. not (required_has_control_point s)) (step ∷ steps))

abbrev pub by_code : Text → List RouteDefinition → Option RouteDefinition
by_code code routes = find (λ (r : RouteDefinition). r.code == code) routes

unfoldable pub create_route :
    Caller → (route_id revision_id : ℕ) → (code name : Text) → List StepInput → Action Tables ℕ
create_route caller route_id revision_id code name steps = do
  raise_if (not (valid_body steps)) (traceq_error ErrorCode.validation_error 422)
  raise_if (is_some (← gets (λ db. by_code code db.routes)))
      (traceq_error ErrorCode.route_code_exists 409)
  modify (λ db. record db { routes = db.routes ++ new_route route_id code name ∷ [] })
  revision ← add_revision caller revision_id route_id steps
  commit
  pure revision.id

unfoldable pub create_revision :
    Caller → (revision_id : ℕ) → (route_id : ℕ) → List StepInput → Action Tables ℕ
create_revision caller revision_id route_id steps = do
  raise_if (not (valid_body steps)) (traceq_error ErrorCode.validation_error 422)
  route ← or_raise (← gets (λ db. get_route route_id db.routes)) not_found_error
  revision ← add_revision caller revision_id route.id steps
  commit
  pure revision.revision

-- A write to the revision with the identity `id`.
abbrev pub write_revision : ℕ → (RouteRevision → RouteRevision) → Tables → Tables
write_revision id f db = record db {
  revisions = update (λ (r : RouteRevision). r.id == id) f db.revisions;
}

abbrev pub set_active_revision : (route_id revision_id : ℕ) → Tables → Tables
set_active_revision route_id revision_id db = record db {
  routes =
      update (λ (r : RouteDefinition). r.id == route_id)
        (λ r. record r { active_revision_id = some revision_id }) db.routes;
}

abbrev pub supersede : RouteRevision → RouteRevision
supersede r = record r { status = RevisionStatus.superseded }

-- `revision.immutable_after or utcnow()`
abbrev pub activated : ℕ → RouteRevision → RouteRevision
activated now r = record r {
  status = RevisionStatus.active;
  immutable_after = some (elim r.immutable_after [ some t ↦ t | none ↦ now ]);
}

-- The step that takes the former active revision back.
abbrev pub retire : Option ℕ → ℕ → Tables → Tables
retire none revision_id db = db
retire (some old) revision_id db =
    if old == revision_id then db else write_revision old supersede db

abbrev pub status_eq : RevisionStatus → RevisionStatus → Bool
status_eq RevisionStatus.draft RevisionStatus.draft = true
status_eq RevisionStatus.active RevisionStatus.active = true
status_eq RevisionStatus.superseded RevisionStatus.superseded = true
status_eq _ _ = false

-- The trigger on route_revisions, backend/alembic/versions/20260925_0002_security_quality_extensions.py, for a write
-- of the status: of a revision that was made immutable only an active one may become superseded.
-- A write that changes nothing is not sent.
abbrev pub is_immutable : RevisionStatus → RouteRevision → Bool
is_immutable status r =
    is_some r.immutable_after
    && (not (status_eq r.status status)
        && not (
            status_eq r.status RevisionStatus.active && status_eq status RevisionStatus.superseded))

abbrev pub is_immutable_former : Option ℕ → ℕ → Tables → Bool
is_immutable_former none revision_id db = false
is_immutable_former (some old) revision_id db =
    not (old == revision_id)
    && any (λ (r : RouteRevision). (r.id == old) && is_immutable RevisionStatus.superseded r)
        db.revisions

-- The trigger raises when the writes are flushed: an exception that no handler names.
abbrev pub database_error : TraceqError
database_error = traceq_error ErrorCode.internal_error 500

unfoldable pub activate_revision : (now : ℕ) → Caller → (route_id revision_id : ℕ) → Action Tables ℕ
activate_revision now caller route_id revision_id = do
  route ← or_raise (← gets (λ db. get_route route_id db.routes)) not_found_error
  revision ← or_raise (← gets (λ db. get_revision revision_id db.revisions)) not_found_error
  raise_if (not (revision.route_id == route.id)) not_found_error
  refused ← gets (is_immutable_former route.active_revision_id revision.id)
  modify (retire route.active_revision_id revision.id)
  modify (write_revision revision.id (activated now))
  modify (set_active_revision route.id revision.id)
  modify (λ db. record db {
    audits =
        db.audits
        ++ audit caller AuditAction.route_revision_activation AuditOutcome.success
            AuditTarget.route_revision revision.id
          ∷ [];
  })
  raise_if (refused || is_immutable RevisionStatus.active revision) database_error
  commit
  pure revision.id

-- `revision.immutable_after = utcnow()`, on a new revision
abbrev pub activated_now : ℕ → RouteRevision → RouteRevision
activated_now now r = record r { status = RevisionStatus.active; immutable_after = some now }

unfoldable pub import_route :
    (now : ℕ)
    → Caller
    → (new_route_id revision_id : ℕ) → (code name : Text) → List StepInput
    → (activate : Bool) → Action Tables ℕ
import_route now caller new_route_id revision_id code name steps activate = do
  raise_if (not (valid_body steps)) (traceq_error ErrorCode.validation_error 422)
  known ← gets (λ db. by_code code db.routes)
  route ← elim known [
    | some route ↦ pure route
    | none ↦ (do
      modify (λ db. record db { routes = db.routes ++ new_route new_route_id code name ∷ [] })
      pure (new_route new_route_id code name))
  ]
  revision ← add_revision caller revision_id route.id steps
  if activate
      then (do
        modify (write_revision revision.id (activated_now now))
        modify (set_active_revision route.id revision.id))
      else skip
  commit
  pure revision.id
