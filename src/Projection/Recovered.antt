-- ===== src/Projection/Recovered.antt =====
-- Rebuilds and recoveries of backend/app/projections/rebuild.py as whole requests.
use kosmohack_final.Projection.Decisions.{rebuilt-Effect}
use kosmohack_final.Projection.Plan.{KeepsPlan}
use kosmohack_final.Projection.Rows.{get_item}
use kosmohack_final.Projection.Frame.{as_decided}
use kosmohack_final.Projection.Recovery.{rebuild_item-rebuilt, session_of, rebuilt}
use kosmohack_final.Projection.Rebuild.{
  is_waiting, new_projection, with_status, is_behind, recover_stale_projections, recover_items,
  ensured, ensure_projection, recover_item, unexpected, failed_with, rebuild_item,
  mark_projection_failed, write_projection,
}
use kosmohack_final.Models.Quality.{Item, Nonconformance}
use kosmohack_final.Models.Log.{ProjectionStatus, ProjectionState}
use kosmohack_final.Session.{
  fresh, ◌>>=◌, rollback, pure, ◌>>◌, or_else, ok, Result, request, Session,
}
use kosmohack_final.Projection.{Tables, Environment}
use kosmohack_final.Prelude.{
  All-append, ==_refl, find, All-map, select, is_some, arith, Bool-cases, inl, ◌∙◌, ap, inr,
  if◌then◌else◌, cons_if, refl, subst, All-update, ◌++◌, ◌==◌, false, update, true, ◌∷◌, contains,
  Bool, map, append_nil_right, All, Option, ◌≡◌, ◌⊎◌, sym, ℕ, List, Text, [], some, none,
}

abbrev Decided : Tables → Tables → Type 0
Decided db db' =
    ((added : List Nonconformance) × (map as_decided db'.nonconformances
        ≡ map as_decided db.nonconformances ++ added))
    × ((k : Text) (i : Item)
        → get_item k db ≡ some i
        → (j : Item) × (get_item k db' ≡ some j) × KeepsPlan i j)

self-Decided : (db : Tables) → Decided db db
self-Decided db = (
  ([], sym (append_nil_right (map as_decided db.nonconformances))),
  λ k i e. (i, e, (refl, refl, refl, refl)),
)

module _ (env : Environment) (now : ℕ) (item_id : Text) where
  rebuilt-Decided :
      (db : Tables) (o : Option Tables)
      → rebuilt env now item_id db ≡ o
      → Decided db (session_of env now item_id (fresh db) o).1.committed
  rebuilt-Decided db none e = self-Decided db
  rebuilt-Decided db (some db') e =
      let (_, _, (_, ns, items)) = rebuilt-Effect env now item_id db db' e in (ns, items)

  -- A rebuild, whether it succeeds or not, leaves each nonconformance as it was but for the number of its
  -- latest analysis, adds others behind them only, and leaves each item its route revision, its status, its structure
  -- status and the time of its registration.
  pub rebuild_keeps_decisions :
      (db : Tables)
      → let db' = (request (rebuild_item env now item_id) db).1 in
        ((added : List Nonconformance) × (map as_decided db'.nonconformances
            ≡ map as_decided db.nonconformances ++ added))
        × ((k : Text) (i : Item)
            → get_item k db ≡ some i
            → (j : Item) × (get_item k db' ≡ some j) × KeepsPlan i j)
  rebuild_keeps_decisions db =
      subst (λ r. Decided db r.1.committed) (sym (rebuild_item-rebuilt env now item_id (fresh db)))
        (rebuilt-Decided db (rebuilt env now item_id db) refl)

-- The projection is up to date or has failed.
abbrev pub IsSettled : ProjectionState → Type 0
IsSettled p = (p.status ≡ ProjectionStatus.up_to_date) ⊎ (p.status ≡ ProjectionStatus.failed)

-- The projection is settled, or its item is one of those.
abbrev AwaitedBy : List Text → ProjectionState → Type 0
AwaitedBy ids p = IsSettled p ⊎ (contains p.item_id ids ≡ true)

abbrev pub Settles : Text → (ProjectionState → ProjectionState) → Type 0
Settles id g = (p : ProjectionState) → ((g p).item_id ≡ p.item_id) × IsSettled (g p)

step-AwaitedBy :
    (id : Text) (ids : List Text) (g : ProjectionState → ProjectionState) (p : ProjectionState)
    → Settles id g
    → AwaitedBy (id ∷ ids) p
    → AwaitedBy ids (if p.item_id == id then g p else p)
step-AwaitedBy id ids g p s a = elim (Bool-cases (p.item_id == id)) [
  | inl mine ↦ rw mine (inl (s p).1)
  | inr other ↦ elim a [
    | inl settled ↦ rw other (inl settled)
    | inr awaited ↦ rw other (inr (ground (arith, awaited, other)))
  ]
]

update-AwaitedBy :
    (id : Text) (ids : List Text) (g : ProjectionState → ProjectionState)
    (ps : List ProjectionState)
    → Settles id g
    → All (AwaitedBy (id ∷ ids)) ps
    → All (AwaitedBy ids) (update (λ p. p.item_id == id) g ps)
update-AwaitedBy id ids g ps s h =
    All-update (AwaitedBy (id ∷ ids)) (AwaitedBy ids) (λ p. p.item_id == id) g ps
      (λ p a. step-AwaitedBy id ids g p s a) h

-- A row of the identity is awaited, in whatever state.
begun-AwaitedBy :
    (id : Text) (ids : List Text) (ps : List ProjectionState)
    → All (AwaitedBy (id ∷ ids)) ps
    → All
        (AwaitedBy (id ∷ ids))
        (update (λ p. p.item_id == id) (with_status ProjectionStatus.rebuilding) ps)
begun-AwaitedBy id ids ps h =
    All-update (AwaitedBy (id ∷ ids)) (AwaitedBy (id ∷ ids)) (λ p. p.item_id == id)
      (with_status ProjectionStatus.rebuilding) ps
      (λ p a. elim (Bool-cases (p.item_id == id)) [
        | inl mine ↦
            subst
              (λ b.
                AwaitedBy (id ∷ ids) (if b then with_status ProjectionStatus.rebuilding p else p))
              (sym mine) (inr (ground (arith, mine)))
        | inr other ↦
            subst
              (λ b.
                AwaitedBy (id ∷ ids) (if b then with_status ProjectionStatus.rebuilding p else p))
              (sym other) a
      ])
      h

-- A projection that is behind is among those that are selected.
behind_selected :
    (ps : List ProjectionState)
    → All
        (λ p.
          is_behind p ≡ true
          → contains p.item_id (map (λ x. x.item_id) (select is_behind ps)) ≡ true)
        ps
behind_selected [] = tt
behind_selected (p ∷ ps) = (
  (λ h. ground (arith, h, ==_refl p.item_id)),
  All-map _ _ ps (λ x f h. ground (arith, f h)) (behind_selected ps),
)

waiting_not :
    (s : ProjectionStatus)
    → is_waiting s ≡ false
    → (s ≡ ProjectionStatus.up_to_date) ⊎ (s ≡ ProjectionStatus.failed)
waiting_not ProjectionStatus.up_to_date h = inl refl
waiting_not ProjectionStatus.failed h = inr refl
waiting_not ProjectionStatus.stale h = absurd (ground arith)
waiting_not ProjectionStatus.rebuilding h = absurd (ground arith)

up_to_date-IsSettled : (p : ProjectionState) → is_behind p ≡ false → IsSettled p
up_to_date-IsSettled p h = waiting_not p.status (elim (Bool-cases (is_waiting p.status)) [
  | inl waiting ↦ absurd (ground arith)
  | inr other ↦ other
])

first-AwaitedBy :
    (ps : List ProjectionState) → All (AwaitedBy (map (λ p. p.item_id) (select is_behind ps))) ps
first-AwaitedBy ps =
    All-map _ _ ps
      (λ p f. elim (Bool-cases (is_behind p)) [
        | inl behind ↦ inr (f behind)
        | inr not_behind ↦ inl (up_to_date-IsSettled p not_behind)
      ])
      (behind_selected ps)

module _ (env : Environment) (now : ℕ) where
  abbrev failed_db : Text → Tables → Tables
  failed_db id db =
      write_projection id (failed_with (env.prefix 2000 (env.describe unexpected)))
        (ensure_projection id db)

  abbrev settled_by : Text → Tables → Option Tables → Bool × Tables
  settled_by id db none = (false, failed_db id db)
  settled_by id db (some db') = (true, db')

  -- What the loop makes of the outcome of a rebuild.
  abbrev caught : Text → Result (Unit {0}) × Session Tables → Result Bool × Session Tables
  caught id outcome =
      or_else ((λ s. outcome) >> pure true)
        (λ e. rollback >> mark_projection_failed env id (env.describe e) >> pure false) outcome.1

  caught-session :
      (id : Text) (db : Tables) (o : Option Tables)
      → let (b, db') = settled_by id db o in
        caught id (session_of env now id (fresh db) o) ≡ (ok b, fresh db')
  unfolding mark_projection_failed
  caught-session id db none = refl
  caught-session id db (some db') = refl

  recover_item-settled :
      (id : Text) (db : Tables)
      → let (b, db') = settled_by id db (rebuilt env now id db) in
        recover_item env now id (fresh db) ≡ (ok b, fresh db')
  recover_item-settled id db =
      ap (caught id) (rebuild_item-rebuilt env now id (fresh db))
      ∙ caught-session id db (rebuilt env now id db)

  abbrev recovered : List Text → Tables → List Text × Tables
  recovered [] db = ([], db)
  recovered (id ∷ ids) db =
      let (b, db') = settled_by id db (rebuilt env now id db) in
      let (rest, db'') = recovered ids db' in (cons_if b id rest, db'')

  abbrev collect :
      Text → Bool → Result (List Text) × Session Tables → Result (List Text) × Session Tables
  collect id b outcome =
      ((λ (s : Session Tables). outcome) >>= λ rest. pure (cons_if b id rest)) outcome.1

  -- The rest of the loop, after its first turn.
  abbrev continue :
      Text → List Text → Result Bool × Session Tables → Result (List Text) × Session Tables
  continue id ids outcome =
      ((λ (s : Session Tables). outcome) >>= λ b.
      recover_items env now ids >>= λ rest. pure (cons_if b id rest))
        outcome.1

  recover_items-recovered :
      (ids : List Text) (db : Tables)
      → let (list, db') = recovered ids db in
        recover_items env now ids (fresh db) ≡ (ok list, fresh db')
  recover_items-recovered [] db = refl
  recover_items-recovered (id ∷ ids) db =
      let (b, db') = settled_by id db (rebuilt env now id db) in
      ap (continue id ids) (recover_item-settled id db)
      ∙ ap (collect id b) (recover_items-recovered ids db')

  failed-Settles : (id : Text) (text : Text) → Settles id (failed_with text)
  failed-Settles id text p = (refl, inr refl)

  ensured-AwaitedBy :
      (id : Text) (ids : List Text) (ps : List ProjectionState)
      → All (AwaitedBy (id ∷ ids)) ps
      → All (AwaitedBy (id ∷ ids)) (ensured id ps)
  ensured-AwaitedBy id ids ps h = elim (Bool-cases (is_some (find (λ p. p.item_id == id) ps))) [
    | inl found ↦ rw found h
    | inr new ↦ rw new (
        All-append (AwaitedBy (id ∷ ids)) ps (new_projection id ∷ []) h
          (inr (ground (arith, ==_refl id)), tt))
  ]

  settled-AwaitedBy :
      (id : Text) (ids : List Text) (db : Tables) (o : Option Tables)
      → rebuilt env now id db ≡ o
      → All (AwaitedBy (id ∷ ids)) db.projections
      → All (AwaitedBy ids) (settled_by id db o).1.projections
  settled-AwaitedBy id ids db none e h =
      update-AwaitedBy id ids (failed_with (env.prefix 2000 (env.describe unexpected)))
        (ensured id db.projections) (failed-Settles id (env.prefix 2000 (env.describe unexpected)))
        (ensured-AwaitedBy id ids db.projections h)
  settled-AwaitedBy id ids db (some db') e h =
      let (g, s, (ps, _, _)) = rebuilt-Effect env now id db db' e in
      subst (All (AwaitedBy ids)) (sym ps) (
        update-AwaitedBy id ids g
          (update (λ p. p.item_id == id) (with_status ProjectionStatus.rebuilding)
            (ensured id db.projections))
          (λ p. ((s p).0, inl (s p).1))
          (begun-AwaitedBy id ids (ensured id db.projections)
            (ensured-AwaitedBy id ids db.projections h)))

  recovered-AwaitedBy :
      (ids : List Text) (db : Tables)
      → All (AwaitedBy ids) db.projections
      → All (AwaitedBy []) (recovered ids db).1.projections
  recovered-AwaitedBy [] db h = h
  recovered-AwaitedBy (id ∷ ids) db h =
      let (_, db') = settled_by id db (rebuilt env now id db) in
      recovered-AwaitedBy ids db' (settled-AwaitedBy id ids db (rebuilt env now id db) refl h)

  -- The recovery of the projections that are behind always comes to its end with a list of items, and
  -- afterwards every projection is up to date or has failed.
  pub recovery_settles :
      (db : Tables)
      → let (r, db') = request (recover_stale_projections env now) db in
        ((ids : List Text) × (r ≡ ok ids)) × All IsSettled db'.projections
  unfolding recover_stale_projections
  recovery_settles db =
      let ids = map (λ (p : ProjectionState). p.item_id) (select is_behind db.projections) in
      let (list, db') = recovered ids db in
      let e = recover_items-recovered ids db in
      (
        (list, ap (λ r. r.0) e),
        subst (λ r. All IsSettled r.1.committed.projections) (sym e)
            (All-map (AwaitedBy []) IsSettled db'.projections
              (λ p a. elim a [ inl settled ↦ settled | inr never ↦ absurd (ground arith) ])
              (recovered-AwaitedBy ids db (first-AwaitedBy db.projections))),
      )
