-- ===== src/Projection/Decisions.antt =====
-- What a whole rebuild, backend/app/projections/rebuild.py, does to projections, nonconformances and
-- items.
use kosmohack_final.Quality.Trust.{is_empty}
use kosmohack_final.Events.{Payload}
use mathlib.Core.Option.{some-injective}
use kosmohack_final.Projection.Recovery.{project_events, finish, rebuilt, begun}
use kosmohack_final.Projection.Frame.{append_assoc, record_readings-Extends, as_decided}
use kosmohack_final.Projection.Plan.{register_item-plan, KeepsPlan, register_item-frame}
use kosmohack_final.Projection.Rows.{
  add_runs, get_item, delete_rows, add_rows, missing_check_limitations, register_item,
}
use kosmohack_final.Models.Quality.{Item, Nonconformance, OperationRun}
use kosmohack_final.Projection.Rebuild.{
  write_projection, values_of, ensured, projected, with_status, with_runs, record_all, write_rows,
}
use kosmohack_final.Projection.Replay.{decrypt_all, raws_of, Values}
use kosmohack_final.Models.Log.{ProjectionStatus, RawEvent, ProjectionState}
use kosmohack_final.Projection.{Tables, Environment}
use kosmohack_final.Prelude.{
  if◌then◌else◌, Bool-cases, update, subst, arith, Option, refl, append_nil_right, sym, ◌==◌, find,
  inr, ◌∙◌, inl, ap, [], ◌++◌, map, ◌≡◌, Text, List, ℕ, some, none,
}

-- The projections change by a function, what is decided about nonconformances stays, and the items
-- keep their plan.
abbrev pub Effect : (List ProjectionState → List ProjectionState) → Tables → Tables → Type 0
Effect f db db' =
    (db'.projections ≡ f db.projections)
    × ((added : List Nonconformance) × (map as_decided db'.nonconformances
          ≡ map as_decided db.nonconformances ++ added))
    × ((k : Text) (i : Item)
        → get_item k db ≡ some i
        → (j : Item) × (get_item k db' ≡ some j) × KeepsPlan i j)

Effect-trans :
    (f g : List ProjectionState → List ProjectionState) (a b c : Tables)
    → Effect f a b
    → Effect g b c
    → Effect (λ ps. g (f ps)) a c
Effect-trans f g a b c (p, (xs, e), k) (q, (ys, h), l) = (
  q ∙ ap g p,
  (xs ++ ys, h ∙ (ap (λ x. x ++ ys) e ∙ append_assoc (map as_decided a.nonconformances) xs ys)),
  λ id i found.
      let (j, at, s) = k id i found in
      let (j', at', s') = l id j at in (j', at', (s'.0 ∙ s.0, s'.1 ∙ s.1, s'.2 ∙ s.2, s'.3 ∙ s.3)),
)

-- A change of projections alone.
projections-Effect :
    (f : List ProjectionState → List ProjectionState) (db : Tables)
    → Effect f db (record db { projections = f db.projections })
projections-Effect f db = (
  refl,
  ([], sym (append_nil_right (map as_decided db.nonconformances))),
  λ k i e. (i, e, (refl, refl, refl, refl)),
)

module _ (env : Environment) (now : ℕ) (item_id : Text) where
  written-Effect :
      (v : Values) (db : Tables) (runs : List OperationRun)
      → Effect
          (λ ps. ps)
          db
          (add_rows env item_id v runs
            (register_item item_id v.item_value (delete_rows item_id db)))
  written-Effect v db runs =
      let (ps, ns) = register_item-frame item_id v.item_value (delete_rows item_id db) in
      (
        ps,
        ([], ap (map as_decided) ns ∙ sym (append_nil_right (map as_decided db.nonconformances))),
        λ k i e. register_item-plan item_id k v.item_value i (delete_rows item_id db) e,
      )

  runs-Effect :
      (v : Values) (db rows : Tables) (o : Option (List OperationRun))
      → with_runs env item_id v (register_item item_id v.item_value (delete_rows item_id db)) o
        ≡ some rows
      → Effect (λ ps. ps) db rows
  runs-Effect v db rows none e = absurd (ground arith)
  runs-Effect v db rows (some runs) e =
      let rows' =
        add_rows env item_id v runs (register_item item_id v.item_value (delete_rows item_id db)) in
      subst (Effect (λ ps. ps) db) (some-injective rows' rows e) (written-Effect v db runs)

  rows-Effect :
      (v : Values) (db rows : Tables)
      → write_rows env item_id v db ≡ some rows
      → Effect (λ ps. ps) db rows
  unfolding write_rows
  rows-Effect v db rows e =
      let cleared = register_item item_id v.item_value (delete_rows item_id db) in
      runs-Effect v db rows (add_runs env item_id v.operations cleared.operation_runs) e

  recorded-Effect :
      (v : Values) (rows : Tables) → Effect (λ ps. ps) rows (record_all env item_id v rows)
  recorded-Effect v rows =
      let limitations =
        missing_check_limitations (get_item item_id rows) v.operations v.observations rows in
      let (ps, items, added, ns) =
        record_readings-Extends env item_id v limitations v.observations rows in
      (
        ps,
        (added, ns),
        λ k i e. (i, ap (find (λ x. x.item_id == k)) items ∙ e, (refl, refl, refl, refl)),
      )

  -- The state of the item when the rebuild begins, and then as a function leaves it.
  abbrev pub states_after :
      (ProjectionState → ProjectionState) → List ProjectionState → List ProjectionState
  states_after g ps =
      update (λ p. p.item_id == item_id) g
        (update (λ p. p.item_id == item_id) (with_status ProjectionStatus.rebuilding)
          (ensured item_id ps))

  begun-Effect :
      (db : Tables)
      → Effect
          (λ ps.
            update
              (λ p. p.item_id == item_id)
              (with_status ProjectionStatus.rebuilding)
              (ensured item_id ps))
          db
          (begun env now item_id db)
  begun-Effect db =
      projections-Effect
        (λ ps.
          update (λ p. p.item_id == item_id) (with_status ProjectionStatus.rebuilding)
            (ensured item_id ps))
        db

  finish-Effect :
      (v : Values) (raws : List RawEvent) (db db' : Tables) (o : Option Tables)
      → ((rows : Tables) → o ≡ some rows → Effect (λ ps. ps) db rows)
      → finish env now item_id v raws o ≡ some db'
      → Effect (update (λ p. p.item_id == item_id) (projected now raws)) db db'
  finish-Effect v raws db db' none h e = absurd (ground arith)
  finish-Effect v raws db db' (some rows) h e =
      let f = update (λ (p : ProjectionState). p.item_id == item_id) (projected now raws) in
      let all = record_all env item_id v rows in
      subst (Effect f db) (some-injective (record all { projections = f all.projections }) db' e) (
        Effect-trans (λ ps. ps) f db all (record all { projections = f all.projections })
          (Effect-trans (λ ps. ps) (λ ps. ps) db rows all (h rows refl) (recorded-Effect v rows))
          (projections-Effect f all))

  project-Effect :
      (raws : List RawEvent) (db db' : Tables) (o : Option (List (RawEvent × Payload)))
      → project_events env now item_id raws db o ≡ some db'
      → Effect (update (λ p. p.item_id == item_id) (projected now raws)) db db'
  project-Effect raws db db' none e = absurd (ground arith)
  project-Effect raws db db' (some events) e =
      let v = values_of env item_id db events in
      finish-Effect v raws db db' (write_rows env item_id v db) (rows-Effect v db) e

  pub rebuilt-Effect :
      (db db' : Tables)
      → rebuilt env now item_id db ≡ some db'
      → (g : ProjectionState → ProjectionState) × ((p : ProjectionState)
          → ((g p).item_id ≡ p.item_id) × ((g p).status ≡ ProjectionStatus.up_to_date))
        × Effect (states_after g) db db'
  rebuilt-Effect db db' e =
      let start = begun env now item_id db in
      let first : List ProjectionState → List ProjectionState = λ ps.
        update (λ p. p.item_id == item_id) (with_status ProjectionStatus.rebuilding)
          (ensured item_id ps) in
      let raws = raws_of item_id start.raw_events in
      let idle = write_projection item_id (with_status ProjectionStatus.up_to_date) start in
      let projects = project_events env now item_id raws start (decrypt_all env raws) in
      elim (Bool-cases (is_empty raws)) [
        | inl none_there ↦
            let g = with_status ProjectionStatus.up_to_date in
            let f = update (λ (p : ProjectionState). p.item_id == item_id) g in
            let same : some idle ≡ some db' =
              subst (λ b. (if b then some idle else projects) ≡ some db') none_there e in
            (
              g,
              (λ p. (refl, refl)),
              subst (Effect (states_after g) db) (some-injective idle db' same) (
                  Effect-trans first f db start idle (begun-Effect db)
                    (projections-Effect f start)),
            )
        | inr some_there ↦
            let g = projected now raws in
            let f = update (λ (p : ProjectionState). p.item_id == item_id) g in
            let same : projects ≡ some db' =
              subst (λ b. (if b then some idle else projects) ≡ some db') some_there e in
            (
              g,
              (λ p. (refl, refl)),
              Effect-trans first f db start db' (begun-Effect db)
                  (project-Effect raws start db' (decrypt_all env raws) same),
            )
      ]
