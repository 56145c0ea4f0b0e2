-- ===== src/Projection/Repeated.antt =====
-- What a further rebuild of unchanged events adds in backend/app/projections/rebuild.py.
use kosmohack_final.Projection.Versions.{written-States, States}
use kosmohack_final.Projection.Analyses.{write_analysis, create_analysis, latest_analysis}
use kosmohack_final.Projection.Replay.{Values}
use kosmohack_final.Quality.BirthWindow.{
  calculate_birth_window, EvidenceValue, BirthWindowResult, DefectReading,
}
use kosmohack_final.Models.Quality.{AnalysisVersion, Nonconformance}
use kosmohack_final.Projection.{Tables}
use kosmohack_final.Prelude.{
  length-append, inr, Option, ap, ◌∙◌, sym, inl, ◌+◌, suc, [], length, arith, ◌≢◌, ◌∷◌, ◌≡◌, ℕ,
  List, some, none,
}

abbrev right_of : Option AnalysisVersion → Option ℕ
right_of none = none
right_of (some a) = a.right_boundary_at

-- A window that ends elsewhere than the latest version is added, and is then the latest.
written_other :
    (ncr : Nonconformance) (before result : BirthWindowResult) (db : Tables) (b : AnalysisVersion)
    → latest_analysis ncr.id db.analyses ≡ some b
    → States b before
    → before.right_boundary_at ≢ result.right_boundary_at
    → let rows = (write_analysis ncr result db).analyses in
      (length rows ≡ suc (length db.analyses))
      × (a : AnalysisVersion) × (latest_analysis ncr.id rows ≡ some a)
      × States a result
written_other ncr before result db b e states other =
    let (a, latest, states', how) = written-States ncr result db in
    elim how [
      | inl (old, _) ↦
          absurd (other (sym states.2 ∙ (ap (λ o. right_of o) (sym e ∙ old) ∙ states'.2)))
      | inr (rows, _) ↦
          (ap length rows ∙ (length-append db.analyses (a ∷ []) ∙ omega arith), a, latest, states')
    ]

written_twice :
    (ncr : Nonconformance) (first second : BirthWindowResult) (db : Tables)
    → first.right_boundary_at ≢ second.right_boundary_at
    → let both : Tables → Tables = λ x. write_analysis ncr second (write_analysis ncr first x) in
      length (both (both db)).analyses ≡ length (both db).analyses + 2
written_twice ncr first second db other =
    let once = write_analysis ncr second (write_analysis ncr first db) in
    let (a, latest, states, _) = written-States ncr second (write_analysis ncr first db) in
    let (longer, b, latest', states') =
      written_other ncr second first once a latest states (λ e. other (sym e)) in
    let (longest, _, _, _) =
      written_other ncr first second (write_analysis ncr first once) b latest' states' other in
    omega (arith, longer, longest)

abbrev value : Option ℕ → ℕ
value none = 0
value (some n) = n

module _ (ncr : Nonconformance) (first second : DefectReading) (v : Values)
    (limitations : List EvidenceValue) where
  -- Both readings of the nonconformance are analysed, as the loop of a rebuild does.
  abbrev pub analyse_both : Tables → Tables
  analyse_both db =
      create_analysis ncr second v limitations (create_analysis ncr first v limitations db)

  -- Two trusted readings of one nonconformance at different times never settle: each time that both
  -- are analysed again, with the same values, two more versions are added.
  pub analysed_again :
      (db : Tables)
      → first.occurred_at ≢ second.occurred_at
      → length (analyse_both (analyse_both db)).analyses ≡ length (analyse_both db).analyses + 2
  unfolding calculate_birth_window
  analysed_again db other =
      written_twice ncr
        (calculate_birth_window first v.observations v.operations v.machines v.actions limitations)
        (calculate_birth_window second v.observations v.operations v.machines v.actions limitations)
        db (λ e. other (ap value e))
