-- ===== src/Projection/Versions.antt =====
-- When backend/app/projections/rebuild.py adds a version to an analysis, and what the latest states.
use kosmohack_final.Projection.{Tables}
use kosmohack_final.Projection.Analyses.{
  reason_for, analysis_row, higher, latest_analysis, next_version, status_eq, analysis_changed,
  write_analysis,
}
use kosmohack_final.Models.Quality.{Nonconformance, AnalysisVersion}
use kosmohack_final.Quality.BirthWindow.{
  BirthWindowResult, WindowStatus, bounded, left_open, evidence_invalidated,
}
use kosmohack_final.Prelude.{
  ◌∙◌, ap, opt_eq→eq, if◌then◌else◌, Option-cases, opt_eq, subst, inl, ◌==◌, suc, ◌<◌, inr, Option,
  Bool-cases, ==_refl, ◌⊎◌, [], ◌∷◌, ◌++◌, refl, arith, opt_eq_refl, false, true, ◌≡◌, List, ℕ,
  some, none,
}

abbrev IsAbove : ℕ → Option AnalysisVersion → Type 0
IsAbove n none = Unit
IsAbove n (some a) = a.version < n

higher-IsAbove :
    (n : ℕ) (x : AnalysisVersion) (o : Option AnalysisVersion)
    → (higher x o).version < n
    → IsAbove n o
higher-IsAbove n x none h = tt
higher-IsAbove n x (some y) h = ground arith

higher-last :
    (x a : AnalysisVersion) (o : Option AnalysisVersion)
    → (higher x o).version < a.version
    → higher x (some a) ≡ a
higher-last x a none h = ground arith
higher-last x a (some y) h = ground arith

above-append :
    (id : ℕ) (rows : List AnalysisVersion) (a : AnalysisVersion)
    → a.nonconformance_id ≡ id
    → IsAbove a.version (latest_analysis id rows)
    → latest_analysis id (rows ++ a ∷ []) ≡ some a
above-append id [] a same above = ground (arith, ==_refl id, same)
above-append id (x ∷ rows) a same above = elim (Bool-cases (x.nonconformance_id == id)) [
  | inl mine ↦
      let rest = latest_analysis id rows in
      let below : (higher x rest).version < a.version =
        subst (λ b. IsAbove a.version (if b then some (higher x rest) else rest)) mine above in
      rw
        (
          mine,
          above-append id rows a same (higher-IsAbove a.version x rest below),
          higher-last x a rest below,
        )
        refl
  | inr other ↦
      let below : IsAbove a.version (latest_analysis id rows) =
        subst
          (λ b.
            IsAbove a.version
              (if b then some (higher x (latest_analysis id rows)) else latest_analysis id rows))
          other above in
      rw other (above-append id rows a same below)
]

next-IsAbove : (o : Option AnalysisVersion) (n : ℕ) → n ≡ next_version o → IsAbove n o
next-IsAbove none n h = tt
next-IsAbove (some a) n h = omega (arith, h)

-- A row with the next number is the latest.
latest-append :
    (id : ℕ) (rows : List AnalysisVersion) (a : AnalysisVersion)
    → a.nonconformance_id ≡ id
    → a.version ≡ next_version (latest_analysis id rows)
    → latest_analysis id (rows ++ a ∷ []) ≡ some a
latest-append id rows a same next =
    above-append id rows a same (next-IsAbove (latest_analysis id rows) a.version next)

-- The version states the window.
abbrev pub States : AnalysisVersion → BirthWindowResult → Type 0
States a result =
    (a.status ≡ result.status)
    × (a.left_boundary_at ≡ result.left_boundary_at)
    × (a.right_boundary_at ≡ result.right_boundary_at)

status_eq→eq : (a b : WindowStatus) → status_eq a b ≡ true → a ≡ b
status_eq→eq bounded bounded h = refl
status_eq→eq left_open left_open h = refl
status_eq→eq evidence_invalidated evidence_invalidated h = refl
status_eq→eq bounded left_open h = ground arith
status_eq→eq bounded evidence_invalidated h = ground arith
status_eq→eq left_open bounded h = ground arith
status_eq→eq left_open evidence_invalidated h = ground arith
status_eq→eq evidence_invalidated bounded h = ground arith
status_eq→eq evidence_invalidated left_open h = ground arith

status_eq_refl : (a : WindowStatus) → status_eq a a ≡ true
status_eq_refl bounded = refl
status_eq_refl left_open = refl
status_eq_refl evidence_invalidated = refl

unchanged-States :
    (a : AnalysisVersion) (result : BirthWindowResult)
    → analysis_changed (some a) result ≡ false
    → States a result
unfolding analysis_changed
unchanged-States a result h = elim (Bool-cases (status_eq a.status result.status)) [
  | inr no_status ↦ absurd (ground arith)
  | inl s ↦ elim (Bool-cases (opt_eq a.left_boundary_at result.left_boundary_at)) [
    | inr no_left ↦ absurd (ground arith)
    | inl l ↦ elim (Bool-cases (opt_eq a.right_boundary_at result.right_boundary_at)) [
      | inr no_right ↦ absurd (ground arith)
      | inl r ↦ (
        status_eq→eq a.status result.status s,
        opt_eq→eq a.left_boundary_at result.left_boundary_at l,
        opt_eq→eq a.right_boundary_at result.right_boundary_at r,
      )
    ]
  ]
]

changed_not :
    (a : AnalysisVersion) (result : BirthWindowResult)
    → States a result
    → analysis_changed (some a) result ≡ false
unfolding analysis_changed
changed_not a result (s, l, r) =
    rw
      (
        s,
        l,
        r,
        status_eq_refl result.status,
        opt_eq_refl result.left_boundary_at,
        opt_eq_refl result.right_boundary_at,
      )
      refl

module _ (ncr : Nonconformance) (result : BirthWindowResult) (db : Tables) where
  abbrev added_row : AnalysisVersion
  added_row =
      let latest = latest_analysis ncr.id db.analyses in
      analysis_row ncr db.analyses latest result (reason_for latest)

  write-added :
      analysis_changed (latest_analysis ncr.id db.analyses) result ≡ true
      → (write_analysis ncr result db).analyses ≡ db.analyses ++ added_row ∷ []
  unfolding write_analysis
  write-added h = rw h refl

  write-unchanged :
      analysis_changed (latest_analysis ncr.id db.analyses) result ≡ false
      → (write_analysis ncr result db).analyses ≡ db.analyses
  unfolding write_analysis
  write-unchanged h = rw h refl

  added-latest :
      analysis_changed (latest_analysis ncr.id db.analyses) result ≡ true
      → latest_analysis ncr.id (write_analysis ncr result db).analyses ≡ some added_row
  added-latest h =
      ap (latest_analysis ncr.id) (write-added h)
      ∙ latest-append ncr.id db.analyses added_row refl refl

  changed_none :
      latest_analysis ncr.id db.analyses ≡ none
      → analysis_changed (latest_analysis ncr.id db.analyses) result ≡ true
  unfolding analysis_changed
  changed_none e = rw e refl

-- After a window is written, the latest version of the nonconformance states it; the versions are
-- those before, with one more exactly when the latest did not state the window.
pub written-States :
    (ncr : Nonconformance) (result : BirthWindowResult) (db : Tables)
    → let rows = (write_analysis ncr result db).analyses in
      (a : AnalysisVersion) × (latest_analysis ncr.id rows ≡ some a)
      × States a result
      × (((latest_analysis ncr.id db.analyses ≡ some a) × (rows ≡ db.analyses))
          ⊎ ((rows ≡ db.analyses ++ a ∷ [])
              × ((b : AnalysisVersion)
                  → latest_analysis ncr.id db.analyses ≡ some b
                  → (¬ States b result) × (a.version ≡ suc b.version))))
written-States ncr result db =
    let latest = latest_analysis ncr.id db.analyses in
    elim (Option-cases latest) [
      | inl first ↦
          let changed = changed_none ncr result db first in
          (
            added_row ncr result db,
            added-latest ncr result db changed,
            (refl, refl, refl),
            inr (write-added ncr result db changed, λ b e. absurd (ground (arith, first, e))),
          )
      | inr (b, e) ↦ elim (Bool-cases (analysis_changed latest result)) [
        | inl changed ↦ (
          added_row ncr result db,
          added-latest ncr result db changed,
          (refl, refl, refl),
          inr (
            write-added ncr result db changed,
            λ c found. (
              λ s. absurd (
                  ground (
                    arith,
                    changed_not c result s,
                    subst (λ o. analysis_changed o result ≡ true) found changed,
                  )),
              ap next_version found,
            ),
          ),
        )
        | inr same ↦ (
          b,
          ap (latest_analysis ncr.id) (write-unchanged ncr result db same) ∙ e,
          unchanged-States b result (subst (λ o. analysis_changed o result ≡ false) e same),
          inl (e, write-unchanged ncr result db same),
        )
      ]
    ]
