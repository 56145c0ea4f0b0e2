-- ===== src/Projection/Rebuild.antt =====
-- `rebuild_item`, `mark_projection_failed` and `recover_stale_projections` of
-- backend/app/projections/rebuild.py.
use kosmohack_final.Models.Quality.{OperationRun}
use kosmohack_final.Quality.Trust.{is_empty}
use kosmohack_final.Session.{gets, or_raise, ◌>>=◌, ◌>>◌}
use kosmohack_final.Projection.Defects.{record_readings}
use kosmohack_final.Projection.Conflicts.{mark_conflicts}
use kosmohack_final.Events.{Payload}
use kosmohack_final.Projection.Rows.{
  add_rows, add_runs, get_item, delete_rows, register_item, missing_check_limitations,
}
use kosmohack_final.Projection.Replay.{decrypt_all, raws_of, no_values, replay, Values}
use kosmohack_final.Session.{
  commit, rollback, modify, ◌>>◌, ErrorCode, pure, or_else, traceq_error, Action, TraceqError,
}
use kosmohack_final.Models.Log.{RawEvent, ProjectionState, ProjectionStatus}
use kosmohack_final.Prelude.{
  select, map, cons_if, [], false, max, ◌++◌, ◌||◌, ◌==◌, find, ◌∷◌, ltb, true, suc, is_some,
  Option, if◌then◌else◌, update, Bool, List, ℕ, Text, some, none,
}
use kosmohack_final.Projection.{Tables, Environment}

abbrev pub new_projection : Text → ProjectionState
new_projection item_id = record {
  item_id = item_id;
  latest_raw_ingest_seq = 0;
  last_projected_ingest_seq = 0;
  projection_version = 0;
  status = ProjectionStatus.stale;
  last_successful_rebuild_at = none;
  last_error = none;
}

-- The state of the item is added when it is not there.
abbrev pub ensured : Text → List ProjectionState → List ProjectionState
ensured item_id rows =
    if is_some (find (λ p. p.item_id == item_id) rows)
    then rows
    else rows ++ new_projection item_id ∷ []

abbrev pub ensure_projection : Text → Tables → Tables
ensure_projection item_id db = record db { projections = ensured item_id db.projections }

abbrev pub write_projection : Text → (ProjectionState → ProjectionState) → Tables → Tables
write_projection item_id f db = record db {
  projections = update (λ p. p.item_id == item_id) f db.projections;
}

abbrev pub with_status : ProjectionStatus → ProjectionState → ProjectionState
with_status status p = record p { status = status }

-- `max(raw.ingest_seq for raw in raws)`
abbrev pub highest_seq : List RawEvent → ℕ
highest_seq [] = 0
highest_seq (raw ∷ raws) = max raw.ingest_seq (highest_seq raws)

abbrev pub projected : ℕ → List RawEvent → ProjectionState → ProjectionState
projected now raws p = record p {
  latest_raw_ingest_seq = highest_seq raws;
  last_projected_ingest_seq = highest_seq raws;
  projection_version = suc p.projection_version;
  status = ProjectionStatus.up_to_date;
  last_successful_rebuild_at = some now;
  last_error = none;
}

-- An exception that no handler names.
abbrev pub unexpected : TraceqError
unexpected = traceq_error ErrorCode.internal_error 500

abbrev pub failed_with : Text → ProjectionState → ProjectionState
failed_with text p = record p { status = ProjectionStatus.failed; last_error = some text }

-- The WHERE of the recovery.
abbrev pub is_waiting : ProjectionStatus → Bool
is_waiting ProjectionStatus.stale = true
is_waiting ProjectionStatus.failed = true
is_waiting ProjectionStatus.rebuilding = true
is_waiting ProjectionStatus.up_to_date = false

abbrev pub is_behind : ProjectionState → Bool
is_behind p = ltb p.last_projected_ingest_seq p.latest_raw_ingest_seq || is_waiting p.status

module _ (env : Environment) where
  -- The values of the events, with conflicts marked.
  abbrev pub values_of : Text → Tables → List (RawEvent × Payload) → Values
  values_of item_id db events =
      let v = replay item_id db events no_values in
      record v { observations = mark_conflicts v.observations }

  abbrev pub with_runs : Text → Values → Tables → Option (List OperationRun) → Option Tables
  with_runs item_id v db none = none
  with_runs item_id v db (some runs) = some (add_rows env item_id v runs db)

  -- The rows of the item, from the values: `none` is an exception of the flush.
  unfoldable pub write_rows : Text → Values → Tables → Option Tables
  write_rows item_id v db =
      let cleared = register_item item_id v.item_value (delete_rows item_id db) in
      with_runs item_id v cleared (add_runs env item_id v.operations cleared.operation_runs)

  abbrev pub record_all : Text → Values → Tables → Tables
  record_all item_id v db =
      let limitations =
        missing_check_limitations (get_item item_id db) v.operations v.observations db in
      record_readings env item_id v limitations v.observations db

  abbrev pub project : ℕ → Text → List RawEvent → Action Tables (Unit {0})
  project now item_id raws = do
    events ← or_raise (decrypt_all env raws) unexpected
    v ← gets (λ db. values_of item_id db events)
    written ← gets (write_rows item_id v)
    rows ← or_raise written unexpected
    modify (λ _. record_all item_id v rows)
    modify (write_projection item_id (projected now raws))
    commit

  unfoldable pub rebuild_item : ℕ → Text → Action Tables (Unit {0})
  rebuild_item now item_id = do
    modify (ensure_projection item_id)
    modify (write_projection item_id (with_status ProjectionStatus.rebuilding))
    raws ← gets (λ db. raws_of item_id db.raw_events)
    if is_empty raws
        then (do
          modify (write_projection item_id (with_status ProjectionStatus.up_to_date))
          commit)
        else project now item_id raws

  unfoldable pub mark_projection_failed : Text → Text → Action Tables (Unit {0})
  mark_projection_failed item_id safe_error = do
    modify (ensure_projection item_id)
    modify (write_projection item_id (failed_with (env.prefix 2000 safe_error)))
    commit

  -- One turn of the loop: whether the item was recovered.
  abbrev pub recover_item : ℕ → Text → Action Tables Bool
  recover_item now item_id =
      or_else (rebuild_item now item_id >> pure true)
        (λ e. rollback >> mark_projection_failed item_id (env.describe e) >> pure false)

  abbrev pub recover_items : ℕ → List Text → Action Tables (List Text)
  recover_items now [] = pure []
  recover_items now (id ∷ ids) = do
    recovered ← recover_item now id
    rest ← recover_items now ids
    pure (cons_if recovered id rest)

  unfoldable pub recover_stale_projections : ℕ → Action Tables (List Text)
  recover_stale_projections now = do
    ids ← gets (λ db. map (λ p. p.item_id) (select is_behind db.projections))
    recover_items now ids
