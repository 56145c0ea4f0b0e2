-- ===== src/Projection/Frame.antt =====
-- What backend/app/projections/rebuild.py leaves alone: decisions on nonconformances, and the route,
-- the status and the registration of an item.
use mathlib.Core.Bool.{false}
use kosmohack_final.Projection.Defects.{
  use_occurrence, use_nonconformance, new_nonconformance, find_open, reading_of, link_occurrence,
  link_nonconformance, record_defects, record_reading, record_readings, analyse, record_defect,
}
use kosmohack_final.Quality.BirthWindow.{
  calculate_birth_window, EvidenceValue, DefectReading, BirthWindowResult,
}
use kosmohack_final.Projection.Replay.{Values}
use kosmohack_final.Models.Quality.{
  DefectOccurrence, AnalysisReason, AnalysisVersion, Nonconformance,
}
use kosmohack_final.Quality.Records.{shows_defect, Defect, ObservationValue, TrustStatus}
use kosmohack_final.Projection.Analyses.{
  has_invalidated, analysis_changed, reason_for, invalidated_window, analysis_row, latest_analysis,
  add_analysis, write_analysis, create_invalidated_analysis,
}
use kosmohack_final.Projection.{Tables, Environment}
use kosmohack_final.Prelude.{
  find, Option, or_opt, [], inr, inl, append_nil_right, sym, Bool-cases, ◌∷◌, ◌==◌, refl, true, ap,
  update, map, ◌++◌, List, if◌then◌else◌, Bool, Text, ◌∙◌, ◌≡◌, ℕ, some, none,
}

-- A nonconformance but for the number of its latest analysis.
abbrev pub as_decided : Nonconformance → Nonconformance
as_decided n = record n { current_analysis_version = 0 }

map_decided :
    (id k : ℕ) (rows : List Nonconformance)
    → map as_decided
        (update (λ n. n.id == id) (λ n. record n { current_analysis_version = k }) rows)
      ≡ map as_decided rows
map_decided id k [] = refl
map_decided id k (n ∷ rows) = elim (Bool-cases (n.id == id)) [
  | inl y ↦ rw (y, map_decided id k rows) refl
  | inr x ↦ rw (x, map_decided id k rows) refl
]

-- The projections, items and occurrences stay, and what is decided about nonconformances.
abbrev pub IsKept : Tables → Tables → Type 0
IsKept db db' =
    (db'.projections ≡ db.projections)
    × (db'.items ≡ db.items)
    × (db'.occurrences ≡ db.occurrences)
    × (map as_decided db'.nonconformances ≡ map as_decided db.nonconformances)

add_analysis-IsKept :
    (a : AnalysisVersion) (es : List EvidenceValue) (db : Tables) → IsKept db (add_analysis a es db)
add_analysis-IsKept a es db =
    (refl, refl, refl, map_decided a.nonconformance_id a.version db.nonconformances)

if-IsKept :
    (b : Bool) (db x y : Tables) → IsKept db x → IsKept db y → IsKept db (if b then x else y)
if-IsKept true db x y h k = h
if-IsKept false db x y h k = k

self-IsKept : (db : Tables) → IsKept db db
self-IsKept db = (refl, refl, refl, refl)

pub write_analysis-IsKept :
    (ncr : Nonconformance) (result : BirthWindowResult) (db : Tables)
    → IsKept db (write_analysis ncr result db)
unfolding write_analysis
write_analysis-IsKept ncr result db =
    let latest = latest_analysis ncr.id db.analyses in
    let a = analysis_row ncr db.analyses latest result (reason_for latest) in
    if-IsKept (analysis_changed latest result) db (add_analysis a result.evidence db) db
      (add_analysis-IsKept a result.evidence db) (self-IsKept db)

create_invalidated-IsKept :
    (ncr : Nonconformance) (obs : ObservationValue) (db : Tables)
    → IsKept db (create_invalidated_analysis ncr obs db)
unfolding create_invalidated_analysis
create_invalidated-IsKept ncr obs db =
    let latest = latest_analysis ncr.id db.analyses in
    let a =
      analysis_row ncr db.analyses latest (invalidated_window obs)
        AnalysisReason.control_device_invalidation in
    let added = add_analysis a (invalidated_window obs).evidence db in
    if-IsKept (has_invalidated latest) db db added (self-IsKept db)
      (add_analysis-IsKept a (invalidated_window obs).evidence db)

pub analyse-IsKept :
    (status : TrustStatus) (ncr : Nonconformance) (obs : ObservationValue) (reading : DefectReading)
    (v : Values) (limitations : List EvidenceValue) (db : Tables)
    → IsKept db (analyse status ncr obs reading v limitations db)
analyse-IsKept TrustStatus.trusted ncr obs reading v limitations db =
    write_analysis-IsKept ncr
      (calculate_birth_window reading v.observations v.operations v.machines v.actions limitations)
      db
analyse-IsKept TrustStatus.invalidated ncr obs reading v limitations db =
    if-IsKept (ncr.current_analysis_version == 0) db db (create_invalidated_analysis ncr obs db)
      (self-IsKept db) (create_invalidated-IsKept ncr obs db)
analyse-IsKept TrustStatus.untrusted ncr obs reading v limitations db = self-IsKept db
analyse-IsKept TrustStatus.unassessable ncr obs reading v limitations db = self-IsKept db
analyse-IsKept TrustStatus.conflicted ncr obs reading v limitations db = self-IsKept db

-- Nonconformances may be added behind the others, which keep what is decided about them.
abbrev pub Extends : Tables → Tables → Type 0
Extends db db' =
    (db'.projections ≡ db.projections)
    × (db'.items ≡ db.items)
    × (added : List Nonconformance) × (map as_decided db'.nonconformances
        ≡ map as_decided db.nonconformances ++ added)

pub append_assoc : (xs ys zs : List Nonconformance) → (xs ++ ys) ++ zs ≡ xs ++ (ys ++ zs)
append_assoc [] ys zs = refl
append_assoc (x ∷ xs) ys zs = cc (append_assoc xs ys zs)

Extends-trans : (a b c : Tables) → Extends a b → Extends b c → Extends a c
Extends-trans a b c (p, i, xs, e) (q, j, ys, f) = (
  q ∙ p,
  j ∙ i,
  xs ++ ys,
  f ∙ (ap (λ l. l ++ ys) e ∙ append_assoc (map as_decided a.nonconformances) xs ys),
)

self-Extends : (db : Tables) → Extends db db
self-Extends db = (refl, refl, [], sym (append_nil_right (map as_decided db.nonconformances)))

if-Extends : (b : Bool) (db x : Tables) → Extends db x → Extends db (if b then x else db)
if-Extends true db x h = h
if-Extends false db x h = self-Extends db

map_append :
    (xs ys : List Nonconformance)
    → map as_decided (xs ++ ys) ≡ map as_decided xs ++ map as_decided ys
map_append [] ys = refl
map_append (x ∷ xs) ys = cc (map_append xs ys)

-- Linking an occurrence touches the occurrences only.
use_occurrence-frame :
    (env : Environment) (item_id : Text) (obs : ObservationValue) (t : Text) (c : Option Text)
    (db : Tables) (o : Option DefectOccurrence)
    → let db' = (use_occurrence env item_id obs t c db o).1 in
      (db'.projections ≡ db.projections)
      × (db'.items ≡ db.items)
      × (db'.nonconformances ≡ db.nonconformances)
use_occurrence-frame env item_id obs t c db none = (refl, refl, refl)
use_occurrence-frame env item_id obs t c db (some o) = (refl, refl, refl)

use_nonconformance-Extends :
    (id : ℕ) (item_id : Text) (obs : ObservationValue) (t : Text) (c : Option Text) (db : Tables)
    (o : Option Nonconformance)
    → Extends db (use_nonconformance id item_id obs t c db o).1
use_nonconformance-Extends id item_id obs t c db (some n) = self-Extends db
use_nonconformance-Extends id item_id obs t c db none =
    let n = new_nonconformance id item_id obs t c db.nonconformances in
    (refl, refl, as_decided n ∷ [], map_append db.nonconformances (n ∷ []))

module _ (env : Environment) (item_id : Text) (v : Values) (limitations : List EvidenceValue) where
  record_defect-Extends :
      (obs : ObservationValue) (d : Defect) (db : Tables)
      → Extends db (record_defect env item_id v limitations obs d db)
  unfolding record_defect
  record_defect-Extends obs d db =
      let c = or_opt d.component_instance_id obs.component_instance_id in
      let (id, linked) = link_occurrence env item_id obs d.defect_type c db in
      let (ncr, opened) = link_nonconformance id item_id obs d.defect_type c linked in
      let (states, items, rows) =
        use_occurrence-frame env item_id obs d.defect_type c db
          (find_open item_id d.defect_type c db.occurrences) in
      let (states', items', added, rows') =
        use_nonconformance-Extends id item_id obs d.defect_type c linked
          (find (λ n. n.occurrence_id == id) linked.nonconformances) in
      let (states'', items'', _, rows'') =
        analyse-IsKept obs.trust_status ncr obs (reading_of obs d.defect_type c) v limitations
          opened in
      (
        states'' ∙ (states' ∙ states),
        items'' ∙ (items' ∙ items),
        added,
        rows'' ∙ (rows' ∙ ap (λ l. map as_decided l ++ added) rows),
      )

  record_defects-Extends :
      (obs : ObservationValue) (ds : List Defect) (db : Tables)
      → Extends db (record_defects env item_id v limitations obs ds db)
  record_defects-Extends obs [] db = self-Extends db
  record_defects-Extends obs (d ∷ ds) db =
      let next = record_defect env item_id v limitations obs d db in
      Extends-trans db next (record_defects env item_id v limitations obs ds next)
        (record_defect-Extends obs d db) (record_defects-Extends obs ds next)

  record_reading-Extends :
      (obs : ObservationValue) (db : Tables)
      → Extends db (record_reading env item_id v limitations obs db)
  record_reading-Extends obs db =
      if-Extends (shows_defect obs.inspection_result) db
        (record_defects env item_id v limitations obs obs.defects db)
        (record_defects-Extends obs obs.defects db)

  pub record_readings-Extends :
      (os : List ObservationValue) (db : Tables)
      → Extends db (record_readings env item_id v limitations os db)
  record_readings-Extends [] db = self-Extends db
  record_readings-Extends (o ∷ os) db =
      let next = record_reading env item_id v limitations o db in
      Extends-trans db next (record_readings env item_id v limitations os next)
        (record_reading-Extends o db) (record_readings-Extends os next)
