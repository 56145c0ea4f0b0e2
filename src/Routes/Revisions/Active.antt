-- ===== src/Routes/Revisions/Active.antt =====
-- Which revision of backend/app/api/routes.py is active.
use kosmohack_final.Session.{request}
use kosmohack_final.Nonconformance.Handlers.{Caller}
use kosmohack_final.Routes.Revisions.{
  retire, Caller, activate_revision, Tables, supersede, activated, get_revision, get_route,
}
use kosmohack_final.Prelude.{
  find-key, Option-cases, ◌⊎◌, refl, find-update_ne, All-update, find-update, arith, inr, All-map,
  sym, inl, ◌∙◌, update, ap, Bool-cases, ◌≢◌, [], subst, ◌==◌, none, ◌∷◌, some, if◌then◌else◌, ◌≡◌,
  All, ℕ, Option, List,
}
use kosmohack_final.Models.Routing.{RouteDefinition, RouteRevision, RevisionStatus}

abbrev pub pointer : Option RouteDefinition → Option ℕ
pointer none = none
pointer (some r) = r.active_revision_id

-- A revision whose status is active is the one that its route points to, so a route has at most
-- one.
abbrev pub OneActive : List RouteDefinition → List RouteRevision → Type 0
OneActive routes revisions =
    All
      (λ (r : RouteRevision).
        r.status ≡ RevisionStatus.active → pointer (get_route r.route_id routes) ≡ some r.id)
      revisions

-- Identities name one row.
abbrev pub UniqueIds : List RouteRevision → Type 0
UniqueIds revisions = All (λ (r : RouteRevision). get_revision r.id revisions ≡ some r) revisions

module _ (routes : List RouteDefinition) (route : RouteDefinition) (v : RouteRevision) where
  -- What holds of a row before: the one that is activated belongs to the route, and an active one
  -- is its route's.
  abbrev Before : RouteRevision → Type 0
  Before r =
      (r.id ≡ v.id → r.route_id ≡ route.id)
      × (r.status ≡ RevisionStatus.active → pointer (get_route r.route_id routes) ≡ some r.id)

  -- What holds once the former active revision is retired: no other one of the route is active.
  abbrev Retired : RouteRevision → Type 0
  Retired r =
      (r.id ≡ v.id → r.route_id ≡ route.id)
      × (r.status ≡ RevisionStatus.active
          → r.id ≢ v.id
          → (r.route_id ≢ route.id) × (pointer (get_route r.route_id routes) ≡ some r.id))

  All-Before :
      (all xs : List RouteRevision)
      → v.route_id ≡ route.id
      → get_revision v.id all ≡ some v
      → All (λ (r : RouteRevision). get_revision r.id all ≡ some r) xs
      → OneActive routes xs
      → All Before xs
  All-Before all [] b f u h = tt
  All-Before all (x ∷ xs) b f u h = ((λ e. same x u.0 e, h.0), All-Before all xs b f u.1 h.1)
    where
      same :
          (r : RouteRevision) → get_revision r.id all ≡ some r → r.id ≡ v.id → r.route_id ≡ route.id
      same r g e =
          let k : get_revision v.id all ≡ some r = subst (λ i. get_revision i all ≡ some r) e g in
          let w : r ≡ v = cc in ap (λ (x : RouteRevision). x.route_id) w ∙ b

  -- Another row of the route is not active: the route points elsewhere.
  other_route :
      (r : RouteRevision)
      → get_route route.id routes ≡ some route
      → route.active_revision_id ≢ some r.id
      → pointer (get_route r.route_id routes) ≡ some r.id
      → r.route_id ≢ route.id
  other_route r g ne p e =
      let k : pointer (get_route route.id routes) ≡ some r.id =
        subst (λ i. pointer (get_route i routes) ≡ some r.id) e p in
      ne (ap pointer (sym g) ∙ k)

  keep_row :
      (r : RouteRevision)
      → get_route route.id routes ≡ some route
      → (r.status ≡ RevisionStatus.active → r.id ≢ v.id → route.active_revision_id ≢ some r.id)
      → Before r
      → Retired r
  keep_row r g ne h = (h.0, λ a n. (other_route r g (ne a n) (h.1 a), h.1 a))

  retire_row :
      (old : ℕ) (r : RouteRevision)
      → get_route route.id routes ≡ some route
      → route.active_revision_id ≡ some old
      → Before r
      → Retired (if r.id == old then supersede r else r)
  retire_row old r g a h = elim (Bool-cases (r.id == old)) [
    | inl e ↦ rw e (h.0, λ s. cc)
    | inr e ↦ rw e (keep_row r g (λ s n. ground arith) h)
  ]

  All-Retired :
      (old : Option ℕ) (db : Tables)
      → get_route route.id routes ≡ some route
      → route.active_revision_id ≡ old
      → All Before db.revisions
      → All Retired (retire old v.id db).revisions
  All-Retired none db g a h =
      All-map Before Retired db.revisions (λ r. keep_row r g (λ s n. ground arith)) h
  All-Retired (some old) db g a h = elim (Bool-cases (old == v.id)) [
    | inl e ↦ rw e (All-map Before Retired db.revisions (λ r. keep_row r g (λ s n. ground arith)) h)
    | inr e ↦ rw e (
        All-update Before Retired (λ (r : RouteRevision). r.id == old) supersede db.revisions
          (λ r. retire_row old r g a) h)
  ]

  -- The routes after the pointer is set.
  abbrev repointed : List RouteDefinition
  repointed =
      update (λ (r : RouteDefinition). r.id == route.id)
        (λ r. record r { active_revision_id = some v.id }) routes

  activate_row :
      (now : ℕ) (r : RouteRevision)
      → get_route route.id routes ≡ some route
      → Retired r
      → let r' = if r.id == v.id then activated now r else r in
        r'.status ≡ RevisionStatus.active → pointer (get_route r'.route_id repointed) ≡ some r'.id
  activate_row now r g h = elim (Bool-cases (r.id == v.id)) [
    | inl e ↦ rw e (λ s. ground (
      arith,
      h.0,
      find-update (λ (x : RouteDefinition). x.id) (λ x. record x { active_revision_id = some v.id })
          route.id route.id routes route (λ x k. k) refl g,
    ))
    | inr e ↦ rw e (λ s.
        let o = h.1 s (ground arith) in
        rw
          (find-update_ne (λ (x : RouteDefinition). x.id)
            (λ x. record x { active_revision_id = some v.id }) r.route_id route.id routes (λ x k. k)
            o.0)
          o.1)
  ]

routes-retire : (old : Option ℕ) (v : ℕ) (db : Tables) → (retire old v db).routes ≡ db.routes
routes-retire none v db = refl
routes-retire (some old) v db = ground arith

activate-refused :
    (now : ℕ) (caller : Caller) (route_id revision_id : ℕ) (db : Tables)
    → ((get_route route_id db.routes ≡ none) ⊎ (get_revision revision_id db.revisions ≡ none))
    → (request (activate_revision now caller route_id revision_id) db).1 ≡ db
unfolding activate_revision
activate-refused now caller route_id revision_id db (inl e) = ground arith
activate-refused now caller route_id revision_id db (inr e) = ground arith

activate-effect :
    (now : ℕ) (caller : Caller) (route_id revision_id : ℕ) (db : Tables) (route : RouteDefinition)
    (v : RouteRevision)
    → get_route route_id db.routes ≡ some route
    → get_revision revision_id db.revisions ≡ some v
    → let db' = (request (activate_revision now caller route_id revision_id) db).1 in
      (db' ≡ db)
      ⊎ ((v.route_id ≡ route.id)
          × (db'.routes ≡ repointed db.routes route v)
          × (db'.revisions
              ≡ update
                  (λ (r : RouteRevision). r.id == v.id)
                  (activated now)
                  (retire route.active_revision_id v.id db).revisions))
unfolding activate_revision
activate-effect now caller route_id revision_id db route v e f =
    ground (arith, routes-retire route.active_revision_id v.id db)

subst₂-OneActive :
    {rs rs' : List RouteDefinition} {vs vs' : List RouteRevision}
    → rs ≡ rs'
    → vs ≡ vs'
    → OneActive rs vs
    → OneActive rs' vs'
subst₂-OneActive e f h = rw (← e, ← f) h

activate_found :
    (now : ℕ) (caller : Caller) (route_id revision_id : ℕ) (db : Tables) (route : RouteDefinition)
    (v : RouteRevision)
    → get_route route_id db.routes ≡ some route
    → get_revision revision_id db.revisions ≡ some v
    → UniqueIds db.revisions
    → OneActive db.routes db.revisions
    → let db' = (request (activate_revision now caller route_id revision_id) db).1 in
      OneActive db'.routes db'.revisions
activate_found now caller route_id revision_id db route v e f u h =
    elim (activate-effect now caller route_id revision_id db route v e f) [
      | inl same ↦ rw same h
      | inr (b, routes, revisions) ↦ subst₂-OneActive (sym routes) (sym revisions) (
          All-update (Retired db.routes route v) _ (λ (r : RouteRevision). r.id == v.id)
            (activated now) (retire route.active_revision_id v.id db).revisions
            (λ r. activate_row db.routes route v now r g)
            (All-Retired db.routes route v route.active_revision_id db g refl
              (All-Before db.routes route v db.revisions db.revisions b k u h)))
    ]
  where
    g : get_route route.id db.routes ≡ some route
    g =
        subst (λ i. get_route i db.routes ≡ some route)
          (sym (find-key (λ (r : RouteDefinition). r.id) route_id db.routes route e)) e

    k : get_revision v.id db.revisions ≡ some v
    k =
        subst (λ i. get_revision i db.revisions ≡ some v)
          (sym (find-key (λ (r : RouteRevision). r.id) revision_id db.revisions v f)) f

-- Activating a revision keeps the rule that a route has at most one active revision, the one it
-- points to, whether the request goes through or not.
pub activate-OneActive :
    (now : ℕ) (caller : Caller) (route_id revision_id : ℕ) (db : Tables)
    → UniqueIds db.revisions
    → OneActive db.routes db.revisions
    → let db' = (request (activate_revision now caller route_id revision_id) db).1 in
      OneActive db'.routes db'.revisions
activate-OneActive now caller route_id revision_id db u h =
    elim (Option-cases (get_route route_id db.routes)) [
      | inl e ↦ rw (activate-refused now caller route_id revision_id db (inl e)) h
      | inr (route, e) ↦ elim (Option-cases (get_revision revision_id db.revisions)) [
        | inl f ↦ rw (activate-refused now caller route_id revision_id db (inr f)) h
        | inr (v, f) ↦ activate_found now caller route_id revision_id db route v e f u h
      ]
    ]
