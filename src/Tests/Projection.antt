-- ===== src/Tests/Projection.antt =====
-- backend/app/projections/rebuild.py on a few events. Every ciphertext is its plain text, and stands
-- for one inspection that found a scratch.
use mathlib.Core.List.{Permᴰ}
use kosmohack_final.Projection.Linking.{open_by_rule}
use kosmohack_final.Quality.Occurrence.{can_link_occurrence, defect_key}
use kosmohack_final.Projection.Plan.{KeepsPlan}
use kosmohack_final.Projection.Opposed.{mark_conflicts_pairwise, opposes}
use kosmohack_final.Projection.Rows.{get_item}
use kosmohack_final.Projection.Recovered.{rebuild_keeps_decisions, recovery_settles, IsSettled}
use kosmohack_final.Projection.Frame.{as_decided}
use kosmohack_final.Projection.ReadBack.{stored_reads_back}
use kosmohack_final.Projection.Ordering.{arrival_order_free}
use kosmohack_final.Projection.Versions.{written-States, States}
use kosmohack_final.Ingestion.Store.{stored_event}
use kosmohack_final.Projection.Rebuild.{new_projection, rebuild_item, recover_stale_projections}
use kosmohack_final.Projection.Repeated.{analysed_again, analyse_both}
use kosmohack_final.Projection.Reopened.{closed_reopens, closing}
use kosmohack_final.Projection.Conflicts.{as_conflicted, mark_conflicts}
use kosmohack_final.Events.{inspected, EventEnvelope}
use kosmohack_final.Ingestion.{new_stream, Encoding}
use kosmohack_final.Quality.BirthWindow.{WindowStatus, BirthWindowResult}
use kosmohack_final.Projection.Analyses.{latest_analysis, write_analysis}
use kosmohack_final.Quality.Records.{
  InspectionScope, ObservationQuality, TrustStatus, InspectionResult, Defect, InspectionPayload,
  ObservationValue,
}
use kosmohack_final.Projection.Replay.{no_values, decrypt, raws_of}
use kosmohack_final.Projection.Defects.{reading_of, new_nonconformance, record_defect, find_open}
use kosmohack_final.Models.Quality.{
  StructureStatus, OccurrenceStatus, Disposition, AnalysisVersion, Nonconformance, Item,
  DefectOccurrence,
}
use kosmohack_final.Security.Integrity.{Primitives}
use kosmohack_final.Models.Log.{EventType, IntegrityStreamState, RawEvent, ProjectionState}
use kosmohack_final.Session.{ok, request}
use kosmohack_final.Projection.{Tables, Environment}
use kosmohack_final.Prelude.{
  ◌++◌, All, any, find, select, ◌==◌, true, refl, if◌then◌else◌, ◌⊎◌, arith, map, suc, ◌+◌, Text,
  ◌≡◌, length, List, [], ◌∷◌, some, none,
}

abbrev scratch : Defect
scratch = record {
  defect_type = 9;
  description = none;
  severity = none;
  component_instance_id = none;
}

abbrev payload : InspectionPayload
payload = record {
  inspection_result = InspectionResult.defect_detected;
  observation_quality = ObservationQuality.good;
  control_point_id = 4;
  confidence = none;
  inspection_scope = InspectionScope.unscoped;
  defects = scratch ∷ [];
  evidence_refs = [];
  component_instance_id = none;
  control_device_id = none;
  capture_session_id = none;
}

abbrev event : EventEnvelope
event = record {
  event_id = 80;
  event_type = EventType.inspection_result;
  schema_version = 1;
  occurred_at = 10;
  source_id = 5;
  source_type = 1;
  sequence = none;
  item_id = some 1;
  operation_run_id = none;
  payload = inspected payload;
}

abbrev env : Environment
env = record {
  decrypt_event = λ ciphertext nonce aad. some ciphertext;
  loads = λ plaintext. some event;
  uuid5 = λ id. id;
  parse_uuid = λ id. some id;
  prefix = λ n text. text;
  describe = λ e. 1;
}

abbrev prims : Primitives
prims = record {
  hmac_sha256 = λ key message. message;
  json_bytes = λ m. m.event_id ∷ m.integrity_seq ∷ [];
  utf8 = λ text. text ∷ [];
  integrity_key = 1 ∷ [];
}

abbrev encoding : Encoding
encoding = record {
  canonical_json = λ e. e.event_id ∷ [];
  sha256_hex = λ bytes. length bytes;
  encrypt_event = λ plaintext aad. (plaintext, []);
  aes_key_id = 1;
}

abbrev stream : IntegrityStreamState
stream = new_stream 6

abbrev first : RawEvent
first = stored_event prims encoding 20 1 event stream

abbrev second : RawEvent
second = record first { event_id = 81; occurred_at = 15 }

abbrev stale_projection : ProjectionState
stale_projection = new_projection 1

abbrev reading : ObservationValue
reading = record {
  payload = payload;
  item_id = some 1;
  operation_run_id = none;
  event_id = 80;
  occurred_at = 10;
  trust_status = TrustStatus.trusted;
  trust_reasons = [];
}

abbrev clean : ObservationValue
clean = record reading {
  payload = record payload { inspection_result = InspectionResult.no_defect; defects = [] };
  event_id = 81;
  occurred_at = 11;
}

abbrev ncr : Nonconformance
ncr = new_nonconformance 1 1 reading 9 none []

abbrev closed : DefectOccurrence
closed = record {
  id = 1;
  item_id = 1;
  defect_type = 9;
  component_instance_id = none;
  first_observation_id = 80;
  current_observation_id = 80;
  status = OccurrenceStatus.closed_occurrence;
  opened_at = 10;
  closed_at = some 30;
}

abbrev item : Item
item = record {
  item_id = 1;
  product_definition_id = 2;
  revision = 1;
  line_id = none;
  route_revision_id = some 3;
  status = Disposition.in_process;
  structure_status = StructureStatus.degraded;
  registered_at = 1;
}

abbrev db : Tables
db = record {
  projections = stale_projection ∷ [];
  raw_events = first ∷ second ∷ [];
  policies = [];
  invalidations = [];
  items = item ∷ [];
  snapshots = [];
  routes = [];
  revisions = [];
  steps = [];
  operation_runs = [];
  observations = [];
  defects = [];
  machine_events = [];
  operator_actions = [];
  occurrences = closed ∷ [];
  nonconformances = ncr ∷ [];
  analyses = [];
  evidence = [];
}

abbrev window : BirthWindowResult
window = record {
  status = WindowStatus.left_open;
  left_boundary_at = none;
  right_boundary_at = some 10;
  evidence = [];
}

-- The events as they are stored when each is received at another time.
abbrev received_again : RawEvent → RawEvent
received_again e = record e { received_at = e.event_id; ingest_seq = 9 }

arrival_order_free_example :
    raws_of 1 (received_again second ∷ received_again first ∷ [])
    ≡ map received_again (raws_of 1 (first ∷ second ∷ []))
arrival_order_free_example =
    arrival_order_free received_again (λ e. (refl, refl, refl, refl, refl)) 1 (first ∷ second ∷ [])
      (received_again second ∷ received_again first ∷ [])
      (
        ((λ e. refl), ((λ e. absurd (ground (arith, e))), tt)),
        (((λ e. absurd (ground (arith, e))), ((λ e. refl), tt)), tt),
      )
      ((refl, tt), (tt, tt)) (Permᴰ.swap refl refl)

mark_conflicts_pairwise_example :
    mark_conflicts (reading ∷ clean ∷ [])
    ≡ map
        (λ obs. if any (opposes obs) (reading ∷ clean ∷ []) then as_conflicted obs else obs)
        (reading ∷ clean ∷ [])
mark_conflicts_pairwise_example = mark_conflicts_pairwise (reading ∷ clean ∷ [])

rebuild_keeps_decisions_example :
    let db' = (request (rebuild_item env 100 1) db).1 in
    ((added : List Nonconformance) × (map as_decided db'.nonconformances
        ≡ map as_decided db.nonconformances ++ added))
    × ((k : Text) (i : Item)
        → get_item k db ≡ some i
        → (j : Item) × (get_item k db' ≡ some j) × KeepsPlan i j)
rebuild_keeps_decisions_example = rebuild_keeps_decisions env 100 1 db

recovery_settles_example :
    let (r, db') = request (recover_stale_projections env 100) db in
    ((ids : List Text) × (r ≡ ok ids)) × All IsSettled db'.projections
recovery_settles_example = recovery_settles env 100 db

written-States_example :
    let rows = (write_analysis ncr window db).analyses in
    (a : AnalysisVersion) × (latest_analysis ncr.id rows ≡ some a)
    × States a window
    × (((latest_analysis ncr.id db.analyses ≡ some a) × (rows ≡ db.analyses))
        ⊎ ((rows ≡ db.analyses ++ a ∷ [])
            × ((b : AnalysisVersion)
                → latest_analysis ncr.id db.analyses ≡ some b
                → (¬ States b window) × (a.version ≡ suc b.version))))
written-States_example = written-States ncr window db

stored_reads_back_example : decrypt env (stored_event prims encoding 20 1 event stream) ≡ some event
stored_reads_back_example =
    stored_reads_back prims encoding env 20 1 event stream (λ plaintext aad. refl) refl

analysed_again_example :
    let both : Tables → Tables =
      analyse_both ncr
        (reading_of reading 9 none)
        (record (reading_of reading 9 none) { occurred_at = 15 })
        no_values
        [] in
    length (both (both db)).analyses ≡ length (both db).analyses + 2
analysed_again_example =
    analysed_again ncr (reading_of reading 9 none)
      (record (reading_of reading 9 none) { occurred_at = 15 }) no_values [] db
      (λ e. ground (arith, e))

-- The replay of the reading.
abbrev replay_reading : Tables → Tables
replay_reading = record_defect env 1 no_values [] reading scratch

closed_reopens_example :
    let first_db = replay_reading db in
    let again = replay_reading first_db in
    let last = replay_reading (closing 40 2 again) in
    (length first_db.occurrences ≡ suc (length db.occurrences))
    × (length first_db.nonconformances ≡ suc (length db.nonconformances))
    × (length again.occurrences ≡ length first_db.occurrences)
    × (length again.nonconformances ≡ length first_db.nonconformances)
    × (length last.occurrences ≡ suc (length again.occurrences))
    × (length last.nonconformances ≡ suc (length again.nonconformances))
closed_reopens_example = closed_reopens env 1 no_values [] reading scratch db (refl, tt) refl 40

-- An occurrence of the same component at another item, and one of the item itself.
abbrev elsewhere : DefectOccurrence
elsewhere = record closed {
  id = 2;
  item_id = 2;
  component_instance_id = some 5;
  status = OccurrenceStatus.open_occurrence;
}

abbrev at_item : DefectOccurrence
at_item = record elsewhere { id = 3; item_id = 1 }

open_by_rule_example :
    find_open 1 9 (some 5) (elsewhere ∷ closed ∷ at_item ∷ [])
    ≡ find
        (λ o. can_link_occurrence o 1 9 (some 5))
        (select (λ o. o.item_id == 1) (elsewhere ∷ closed ∷ at_item ∷ []))
open_by_rule_example =
    open_by_rule 1 9 (some 5) (refl, refl) (elsewhere ∷ closed ∷ at_item ∷ [])
      ((refl, refl), (tt, ((refl, refl), tt)))

-- The rule alone links to the occurrence at the other item.
links_elsewhere : can_link_occurrence elsewhere 1 9 (some 5) ≡ true
unfolding can_link_occurrence defect_key
links_elsewhere = refl

opens_at_item : find_open 1 9 (some 5) (elsewhere ∷ closed ∷ at_item ∷ []) ≡ some at_item
opens_at_item = refl

-- The query passes the occurrence at the other item over.
passes_elsewhere : find_open 1 9 (some 5) (elsewhere ∷ []) ≡ none
passes_elsewhere = refl
