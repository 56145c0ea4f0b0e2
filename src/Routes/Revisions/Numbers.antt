-- ===== src/Routes/Revisions/Numbers.antt =====
-- The numbers of the revisions of backend/app/api/routes.py, and a route that is imported.
use kosmohack_final.Session.{ok, request}
use kosmohack_final.Routes.Steps.{validate_steps, StepInput}
use kosmohack_final.Nonconformance.Handlers.{Caller}
use kosmohack_final.Prelude.{
  find-key, find-append_none, inr, find-update, find-append_some, inl, refl, find-update_ne, ◌==◌,
  Option-cases, sym, ap, subst, ◌+◌, update, ◌∙◌, ◌≢◌, true, [], ◌++◌, none, All-map, arith, ◌<◌,
  some, ◌∷◌, ◌≤◌, ◌≡◌, All, Text, List, ℕ,
}
use kosmohack_final.Routes.Revisions.{
  get_route, activated_now, draft_of, validate_steps, valid_body, get_revision, ok, by_code, Tables,
  StepInput, Caller, add_revision, import_route, create_revision, last_revision,
}
use kosmohack_final.Models.Routing.{RouteDefinition, RouteRevision, RevisionStatus}

last_revision-All :
    (route_id : ℕ) (rs : List RouteRevision)
    → All (λ (r : RouteRevision). r.route_id ≡ route_id → r.revision ≤ last_revision route_id rs) rs
unfolding last_revision
last_revision-All route_id [] = tt
last_revision-All route_id (r ∷ rs) = (
  λ e. ground arith,
  All-map _ _ rs (λ x h e. ground (arith, h e)) (last_revision-All route_id rs),
)

create_revision-effect :
    (caller : Caller) (revision_id route_id : ℕ) (steps : List StepInput) (db : Tables) (n : ℕ)
    → (request (create_revision caller revision_id route_id steps) db).0 ≡ ok n
    → (n ≡ last_revision route_id db.revisions + 1)
      × ((request (create_revision caller revision_id route_id steps) db).1.revisions
          ≡ db.revisions
            ++ draft_of caller revision_id route_id (last_revision route_id db.revisions) ∷ [])
unfolding create_revision add_revision
create_revision-effect caller revision_id route_id steps db n h =
    elim (Option-cases (get_route route_id db.routes)) [
      | inl e ↦ ground arith
      | inr (route, e) ↦
          let k : route.id ≡ route_id =
            find-key (λ (r : RouteDefinition). r.id) route_id db.routes route e in
          ground (arith, k)
    ]

-- A revision that is created gets a number above those of all revisions of its route, is a draft,
-- and is the one row that the request adds to the revisions.
create_revision_number :
    (caller : Caller) (revision_id route_id : ℕ) (steps : List StepInput) (db : Tables) (n : ℕ)
    → (request (create_revision caller revision_id route_id steps) db).0 ≡ ok n
    → All (λ (r : RouteRevision). r.route_id ≡ route_id → r.revision < n) db.revisions
      × ((request (create_revision caller revision_id route_id steps) db).1.revisions
          ≡ db.revisions
            ++ record {
              id = revision_id;
              route_id = route_id;
              revision = n;
              status = RevisionStatus.draft;
              immutable_after = none;
              created_by = some caller.user_id;
            }
              ∷ [])
create_revision_number caller revision_id route_id steps db n h =
    let e = create_revision-effect caller revision_id route_id steps db n h in
    (
      All-map _ _ db.revisions (λ r k same. omega (arith, k same, e.0))
          (last_revision-All route_id db.revisions),
      e.1
          ∙ ap
              (λ m.
                db.revisions
                ++ record {
                  id = revision_id;
                  route_id = route_id;
                  revision = m;
                  status = RevisionStatus.draft;
                  immutable_after = none;
                  created_by = some caller.user_id;
                }
                  ∷ [])
              (sym e.0),
    )

abbrev imported : ℕ → RouteRevision → List RouteRevision → List RouteRevision
imported now d rs = update (λ (r : RouteRevision). r.id == d.id) (activated_now now) (rs ++ d ∷ [])

import-effect :
    (now : ℕ) (caller : Caller) (new_route_id revision_id : ℕ) (code name : Text)
    (steps : List StepInput) (db : Tables) (route : RouteDefinition)
    → by_code code db.routes ≡ some route
    → valid_body steps ≡ true
    → validate_steps steps ≡ ok tt
    → (request
        (import_route now caller new_route_id revision_id code name steps true)
        db).1.revisions
      ≡ imported now
          (draft_of caller revision_id route.id (last_revision route.id db.revisions))
          db.revisions
unfolding import_route add_revision
import-effect now caller new_route_id revision_id code name steps db route c body valid =
    ground arith

imported_both :
    (now old : ℕ) (d former : RouteRevision) (rs : List RouteRevision)
    → get_revision old rs ≡ some former
    → get_revision d.id rs ≡ none
    → (get_revision old (imported now d rs) ≡ some former)
      × (get_revision d.id (imported now d rs) ≡ some (activated_now now d))
      × (d.id ≢ former.id)
imported_both now old d former rs f fresh =
    let key = λ (r : RouteRevision). r.id in
    let ne : old ≢ d.id = λ e.
      (let g : get_revision d.id rs ≡ some former =
          subst (λ i. get_revision i rs ≡ some former) e f in
        cc) in
    let here : get_revision d.id (d ∷ []) ≡ some d = ground arith in
    (
      find-update_ne key (activated_now now) old d.id (rs ++ d ∷ []) (λ x k. k) ne
          ∙ find-append_some (λ r. key r == old) rs (d ∷ []) former f,
      find-update key (activated_now now) d.id d.id (rs ++ d ∷ []) d (λ x k. k) refl
          (find-append_none (λ r. key r == d.id) rs (d ∷ []) fresh ∙ here),
      λ e. ne (sym (find-key key old rs former f) ∙ sym e),
    )

-- An import that activates a new revision of a route which has an active revision leaves both
-- active: the former one is not superseded.
pub import_leaves_two_active :
    (now : ℕ) (caller : Caller) (new_route_id revision_id old : ℕ) (code name : Text)
    (steps : List StepInput) (db : Tables) (route : RouteDefinition) (former : RouteRevision)
    → by_code code db.routes ≡ some route
    → get_revision old db.revisions ≡ some former
    → former.status ≡ RevisionStatus.active
    → former.route_id ≡ route.id
    → get_revision revision_id db.revisions ≡ none
    → valid_body steps ≡ true
    → validate_steps steps ≡ ok tt
    → let db' =
        (request (import_route now caller new_route_id revision_id code name steps true) db).1 in
      (get_revision old db'.revisions ≡ some former)
      × ((v : RouteRevision) × (get_revision revision_id db'.revisions ≡ some v)
          × (v.status ≡ RevisionStatus.active)
          × (v.route_id ≡ former.route_id)
          × (v.id ≢ former.id))
import_leaves_two_active now caller new_route_id revision_id old code name steps db route former c f
      a b fresh body valid =
    let d = draft_of caller revision_id route.id (last_revision route.id db.revisions) in
    let both = imported_both now old d former db.revisions f fresh in
    rw (import-effect now caller new_route_id revision_id code name steps db route c body valid)
      (both.0, (activated_now now d, both.1, refl, sym b, both.2))
