-- ===== src/Projection/Analyses.antt =====
-- The versions of an analysis, backend/app/projections/rebuild.py: when one is added.
use kosmohack_final.Quality.BirthWindow.{bounded, left_open, evidence_invalidated}
use kosmohack_final.Projection.Replay.{Values}
use kosmohack_final.Quality.BirthWindow.{
  Details, calculate_birth_window, EvidenceRole, EvidenceType, BirthWindowResult, EvidenceValue,
  DefectReading, WindowStatus,
}
use kosmohack_final.Quality.Records.{ObservationValue}
use kosmohack_final.Models.Quality.{
  AnalysisEvidence, AnalysisReason, Nonconformance, AnalysisVersion,
}
use kosmohack_final.Prelude.{
  opt_eq, update, ◌||◌, [], not, ◌==◌, map, true, ltb, false, max, ◌++◌, ◌∷◌, suc, if◌then◌else◌,
  Bool, Option, ℕ, List, some, none,
}
use kosmohack_final.Projection.{Tables}

-- What an identity of `uuid4` is: one that no row has.
abbrev pub new_id : List ℕ → ℕ
new_id [] = 1
new_id (id ∷ ids) = max (suc id) (new_id ids)

abbrev pub higher : AnalysisVersion → Option AnalysisVersion → AnalysisVersion
higher a none = a
higher a (some b) = if ltb a.version b.version then b else a

-- The version of the nonconformance with the highest number.
abbrev pub latest_analysis : ℕ → List AnalysisVersion → Option AnalysisVersion
latest_analysis id [] = none
latest_analysis id (a ∷ rows) =
    let rest = latest_analysis id rows in
    if a.nonconformance_id == id then some (higher a rest) else rest

abbrev pub status_eq : WindowStatus → WindowStatus → Bool
status_eq bounded bounded = true
status_eq left_open left_open = true
status_eq evidence_invalidated evidence_invalidated = true
status_eq _ _ = false

unfoldable pub analysis_changed : Option AnalysisVersion → BirthWindowResult → Bool
analysis_changed none result = true
analysis_changed (some latest) result =
    not (status_eq latest.status result.status)
    || (not (opt_eq latest.left_boundary_at result.left_boundary_at)
        || not (opt_eq latest.right_boundary_at result.right_boundary_at))

abbrev pub next_version : Option AnalysisVersion → ℕ
next_version none = 1
next_version (some latest) = suc latest.version

abbrev pub reason_for : Option AnalysisVersion → AnalysisReason
reason_for none = AnalysisReason.initial_detection
reason_for (some latest) = AnalysisReason.late_event_rebuild

abbrev pub evidence_row : ℕ → EvidenceValue → AnalysisEvidence
evidence_row analysis_id value = record {
  analysis_version_id = analysis_id;
  evidence_type = value.evidence_type;
  evidence_role = value.evidence_role;
  source_event_id = value.source_event_id;
  occurred_at = value.occurred_at;
  details = value.details;
}

abbrev pub analysis_row :
    Nonconformance
    → List AnalysisVersion
    → Option AnalysisVersion
    → BirthWindowResult
    → AnalysisReason
    → AnalysisVersion
analysis_row ncr rows latest result reason = record {
  id = new_id (map (λ a. a.id) rows);
  nonconformance_id = ncr.id;
  item_id = ncr.item_id;
  version = next_version latest;
  status = result.status;
  defect_type = ncr.defect_type;
  component_instance_id = ncr.component_instance_id;
  left_boundary_at = result.left_boundary_at;
  right_boundary_at = result.right_boundary_at;
  reason = reason;
}

-- The row, its evidence, and the number that the nonconformance shows.
abbrev pub add_analysis : AnalysisVersion → List EvidenceValue → Tables → Tables
add_analysis a evidence db = record db {
  analyses = db.analyses ++ a ∷ [];
  evidence = db.evidence ++ map (evidence_row a.id) evidence;
  nonconformances =
      update (λ n. n.id == a.nonconformance_id)
        (λ n. record n { current_analysis_version = a.version }) db.nonconformances;
}

-- `_create_analysis`, from the computed window on.
unfoldable pub write_analysis : Nonconformance → BirthWindowResult → Tables → Tables
write_analysis ncr result db =
    let latest = latest_analysis ncr.id db.analyses in
    if analysis_changed latest result
    then add_analysis (analysis_row ncr db.analyses latest result (reason_for latest))
        result.evidence db
    else db

abbrev pub create_analysis :
    Nonconformance → DefectReading → Values → List EvidenceValue → Tables → Tables
create_analysis ncr defect v limitations db =
    write_analysis ncr
      (calculate_birth_window defect v.observations v.operations v.machines v.actions limitations)
      db

-- The window of an analysis whose evidence fell away.
abbrev pub invalidated_window : ObservationValue → BirthWindowResult
invalidated_window obs = record {
  status = WindowStatus.evidence_invalidated;
  left_boundary_at = none;
  right_boundary_at = none;
  evidence =
      record {
        evidence_type = EvidenceType.device_validity;
        evidence_role = EvidenceRole.limitation;
        source_event_id = some obs.event_id;
        occurred_at = some obs.occurred_at;
        details = Details.of_invalidation obs.control_device_id obs.trust_reasons;
      }
      ∷ [];
}

abbrev pub has_invalidated : Option AnalysisVersion → Bool
has_invalidated none = false
has_invalidated (some latest) = status_eq latest.status WindowStatus.evidence_invalidated

unfoldable pub create_invalidated_analysis : Nonconformance → ObservationValue → Tables → Tables
create_invalidated_analysis ncr obs db =
    let latest = latest_analysis ncr.id db.analyses in
    if has_invalidated latest
    then db
    else add_analysis
        (analysis_row ncr db.analyses latest (invalidated_window obs)
          AnalysisReason.control_device_invalidation)
        (invalidated_window obs).evidence db
