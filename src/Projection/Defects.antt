-- ===== src/Projection/Defects.antt =====
-- The loop of backend/app/projections/rebuild.py over the defects of the readings: occurrences,
-- nonconformances and analyses.
use kosmohack_final.Quality.Occurrence.{is_open}
use kosmohack_final.Projection.Analyses.{create_invalidated_analysis, create_analysis, new_id}
use kosmohack_final.Quality.BirthWindow.{EvidenceValue, is_trusted, DefectReading}
use kosmohack_final.Projection.Replay.{Values}
use kosmohack_final.Models.Quality.{
  Containment, Disposition, DefectOccurrence, Nonconformance, Verdict, OccurrenceStatus,
}
use kosmohack_final.Quality.Records.{shows_defect, Defect, ObservationValue, TrustStatus}
use kosmohack_final.Prelude.{
  opt_eq, [], or_opt, map, ◌∷◌, ◌&&◌, ◌++◌, ◌==◌, find, List, if◌then◌else◌, update, Option, Text,
  ℕ, some, none,
}
use kosmohack_final.Projection.{Tables, Environment}

abbrev pub find_open : Text → Text → Option Text → List DefectOccurrence → Option DefectOccurrence
find_open item_id defect_type component rows =
    find
      (λ o.
        (o.item_id == item_id)
        && ((o.defect_type == defect_type)
            && (opt_eq o.component_instance_id component && is_open o.status)))
      rows

abbrev pub new_occurrence :
    Environment
    → Text
    → ObservationValue
    → Text
    → Option Text
    → List DefectOccurrence
    → DefectOccurrence
new_occurrence env item_id obs defect_type component rows = record {
  id = new_id (map (λ o. o.id) rows);
  item_id = item_id;
  defect_type = defect_type;
  component_instance_id = component;
  first_observation_id = env.uuid5 obs.event_id;
  current_observation_id = env.uuid5 obs.event_id;
  status = OccurrenceStatus.open_occurrence;
  opened_at = obs.occurred_at;
  closed_at = none;
}

-- The open occurrence of the defect, whose current reading is this one, or a new one.
abbrev pub use_occurrence :
    Environment
    → Text
    → ObservationValue
    → Text
    → Option Text
    → Tables
    → Option DefectOccurrence
    → ℕ × Tables
use_occurrence env item_id obs defect_type component db (some o) = (
  o.id,
  record db {
    occurrences =
        update (λ x. x.id == o.id)
          (λ x. record x { current_observation_id = env.uuid5 obs.event_id }) db.occurrences;
  },
)
use_occurrence env item_id obs defect_type component db none =
    let o = new_occurrence env item_id obs defect_type component db.occurrences in
    (o.id, record db { occurrences = db.occurrences ++ o ∷ [] })

abbrev pub link_occurrence :
    Environment → Text → ObservationValue → Text → Option Text → Tables → ℕ × Tables
link_occurrence env item_id obs defect_type component db =
    use_occurrence env item_id obs defect_type component db
      (find_open item_id defect_type component db.occurrences)

abbrev pub first_verdict : TrustStatus → Verdict
first_verdict status =
    if is_trusted status then Verdict.pending_review else Verdict.needs_extra_check

abbrev pub new_nonconformance :
    ℕ → Text → ObservationValue → Text → Option Text → List Nonconformance → Nonconformance
new_nonconformance occurrence_id item_id obs defect_type component rows = record {
  id = new_id (map (λ n. n.id) rows);
  occurrence_id = occurrence_id;
  item_id = item_id;
  defect_type = defect_type;
  component_instance_id = component;
  verdict = first_verdict obs.trust_status;
  disposition = Disposition.in_process;
  containment = Containment.review_required;
  opened_at = obs.occurred_at;
  closed_at = none;
  current_analysis_version = 1;
  resolution_type = none;
  resolved_at = none;
  verification_decision_id = none;
  verification_status = none;
}

abbrev pub use_nonconformance :
    ℕ
    → Text
    → ObservationValue
    → Text
    → Option Text
    → Tables
    → Option Nonconformance
    → Nonconformance × Tables
use_nonconformance occurrence_id item_id obs defect_type component db (some n) = (n, db)
use_nonconformance occurrence_id item_id obs defect_type component db none =
    let n = new_nonconformance occurrence_id item_id obs defect_type component db.nonconformances in
    (n, record db { nonconformances = db.nonconformances ++ n ∷ [] })

abbrev pub link_nonconformance :
    ℕ → Text → ObservationValue → Text → Option Text → Tables → Nonconformance × Tables
link_nonconformance occurrence_id item_id obs defect_type component db =
    use_nonconformance occurrence_id item_id obs defect_type component db
      (find (λ n. n.occurrence_id == occurrence_id) db.nonconformances)

-- `{**obs, "defect_type": ..., "component_instance_id": ...}`
abbrev pub reading_of : ObservationValue → Text → Option Text → DefectReading
reading_of obs defect_type component = record {
  event_id = obs.event_id;
  occurred_at = obs.occurred_at;
  defect_type = defect_type;
  component_instance_id = component;
}

abbrev pub analyse :
    TrustStatus
    → Nonconformance
    → ObservationValue
    → DefectReading
    → Values
    → List EvidenceValue
    → Tables
    → Tables
analyse TrustStatus.trusted ncr obs reading v limitations db =
    create_analysis ncr reading v limitations db
analyse TrustStatus.invalidated ncr obs reading v limitations db =
    if ncr.current_analysis_version == 0 then db else create_invalidated_analysis ncr obs db
analyse TrustStatus.untrusted ncr obs reading v limitations db = db
analyse TrustStatus.unassessable ncr obs reading v limitations db = db
analyse TrustStatus.conflicted ncr obs reading v limitations db = db

-- One turn of the inner loop.
unfoldable pub record_defect :
    Environment → Text → Values → List EvidenceValue → ObservationValue → Defect → Tables → Tables
record_defect env item_id v limitations obs defect db =
    let component = or_opt defect.component_instance_id obs.component_instance_id in
    let (occurrence_id, linked) = link_occurrence env item_id obs defect.defect_type component db in
    let (ncr, opened) =
      link_nonconformance occurrence_id item_id obs defect.defect_type component linked in
    analyse obs.trust_status ncr obs (reading_of obs defect.defect_type component) v limitations
      opened

module _ (env : Environment) (item_id : Text) (v : Values) (limitations : List EvidenceValue) where
  abbrev pub record_defects : ObservationValue → List Defect → Tables → Tables
  record_defects obs [] db = db
  record_defects obs (d ∷ ds) db =
      record_defects obs ds (record_defect env item_id v limitations obs d db)

  abbrev pub record_reading : ObservationValue → Tables → Tables
  record_reading obs db =
      if shows_defect obs.inspection_result then record_defects obs obs.defects db else db

  abbrev pub record_readings : List ObservationValue → Tables → Tables
  record_readings [] db = db
  record_readings (o ∷ os) db = record_readings os (record_reading o db)
