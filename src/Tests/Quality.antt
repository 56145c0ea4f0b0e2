-- ===== src/Tests/Quality.antt =====
-- backend/app/quality/ at concrete inspections.
use kosmohack_final.Projection.Narrowing.{late_readings_narrow}
use kosmohack_final.Projection.Conflicts.{mark_conflicts}
use kosmohack_final.Quality.Trust.Laws.{trusted_iff_meets, MeetsPolicy}
use kosmohack_final.Quality.BirthWindow.Evidence.{context-InWindow, InWindow}
use kosmohack_final.Quality.BirthWindow.Laws.{window_exact, LeftBoundary}
use kosmohack_final.Quality.Records.{
  unassessable, conflicted, impossible_to_assess, unscoped, good, CompletionStatus, defect_detected,
  trusted, ObservationValue, no_defect, InspectionPayload, OperationValue, InspectionResult,
}
use kosmohack_final.Quality.Trust.{scope_covers, default_policy, evaluate_trust, TrustPolicyValue}
use kosmohack_final.Quality.BirthWindow.{
  window_status, last_good, calculate_birth_window, DefectReading,
}
use kosmohack_final.Prelude.{
  inl, inr, map, refl, ◌≢◌, ◌<◌, ◌↔◌, ◌≤◌, ◌≡◌, All, false, [], true, some, none, ◌∷◌, List, ℕ,
}

-- An inspection of the whole part with a confidence of 90.
abbrev inspection : InspectionResult → InspectionPayload
inspection result = record {
  inspection_result = result;
  observation_quality = good;
  control_point_id = 7;
  confidence = some 90;
  inspection_scope = unscoped;
  defects = [];
  evidence_refs = [];
  component_instance_id = none;
  control_device_id = some 5;
  capture_session_id = none;
}

abbrev strict : TrustPolicyValue
strict = record default_policy { min_confidence = some 80; requires_valid_device = true }

abbrev seen : ℕ → InspectionResult → ObservationValue
seen time result = record {
  payload = inspection result;
  item_id = some 1;
  operation_run_id = none;
  event_id = time;
  occurred_at = time;
  trust_status = trusted;
  trust_reasons = [];
}

abbrev scratch : DefectReading
scratch = record { event_id = 50; occurred_at = 50; defect_type = 9; component_instance_id = none }

abbrev milling : OperationValue
milling = record {
  operation_run_id = some 3;
  item_id = some 1;
  operation_id = some 4;
  operator_id = none;
  equipment_id = none;
  station_id = none;
  started_at = some 20;
  finished_at = some 30;
  completion_status = some CompletionStatus.completed;
  duration = none;
  previous_operation_run_id = none;
  run_reason = none;
  rework_for_nonconformance_id = none;
  source_event_id = some 30;
}

abbrev early : List ObservationValue
early = seen 10 no_defect ∷ seen 50 defect_detected ∷ []

trusted_iff_meets_example :
    ((evaluate_trust (inspection no_defect) strict true false false).status ≡ trusted) ↔ (
      (no_defect ≢ impossible_to_assess)
      × (false ≡ false)
      × (false ≡ false)
      × MeetsPolicy (inspection no_defect) strict true)
trusted_iff_meets_example = trusted_iff_meets (inspection no_defect) strict true false false

window_exact_example :
    let w = calculate_birth_window scratch early (milling ∷ []) [] [] [] in
    LeftBoundary scratch early w.left_boundary_at
    × (w.status ≡ window_status w.left_boundary_at)
    × (w.right_boundary_at ≡ some 50)
window_exact_example = window_exact scratch early (milling ∷ []) [] [] []

-- A reading in a period of its own: five minutes are 300000000.
abbrev later_scratch : DefectReading
later_scratch = record scratch { occurred_at = 1000000000 }

abbrev first_readings : List ObservationValue
first_readings = seen 10 no_defect ∷ seen 1000000000 defect_detected ∷ []

abbrev all_readings : List ObservationValue
all_readings = seen 10 no_defect ∷ seen 600000000 no_defect ∷ seen 1000000000 defect_detected ∷ []

late_readings_narrow_example :
    let w = calculate_birth_window later_scratch (mark_conflicts all_readings) [] [] [] [] in
    (t' : ℕ) × (w.left_boundary_at ≡ some t') × (10 ≤ t') × (t' < 1000000000)
unfolding calculate_birth_window last_good scope_covers mark_conflicts
late_readings_narrow_example =
    late_readings_narrow first_readings all_readings (inl refl, (inr (inr (inl refl)), tt))
      (inl (inl refl), (inr (refl, (refl, tt)), (inl (inr (inl refl)), tt))) later_scratch [] [] []
      [] [] [] [] [] 10 refl

-- A late reading that opposes the left boundary opens the window.
opposed_widens :
    (calculate_birth_window later_scratch
      (mark_conflicts
        (seen 10 no_defect ∷ seen 20 defect_detected ∷ seen 1000000000 defect_detected ∷ []))
      []
      []
      []
      []).left_boundary_at
    ≡ none
unfolding calculate_birth_window last_good scope_covers mark_conflicts
opposed_widens = refl

-- A reading that could not be assessed is marked as well, and opposes a good one.
unassessed_conflicts :
    map
      (λ o. o.trust_status)
      (mark_conflicts (
        record (seen 10 impossible_to_assess) { trust_status = unassessable }
        ∷ seen 20 no_defect
        ∷ []))
    ≡ conflicted ∷ conflicted ∷ []
unfolding mark_conflicts
unassessed_conflicts = refl

context-InWindow_example :
    let w = calculate_birth_window scratch early (milling ∷ []) [] [] [] in
    All (InWindow w.left_boundary_at 50) w.evidence
context-InWindow_example = context-InWindow scratch early (milling ∷ []) [] [] [] tt
