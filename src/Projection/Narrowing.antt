-- ===== src/Projection/Narrowing.antt =====
-- How the birth window of backend/app/quality/birth_window.py moves when readings arrive late, with
-- the conflicts that backend/app/projections/rebuild.py marks.
use kosmohack_final.Projection.Conflicts.{mark_conflicts, as_conflicted}
use kosmohack_final.Projection.Opposed.{mark_conflicts_pairwise, opposes}
use kosmohack_final.Quality.BirthWindow.Laws.{
  IsTrustedGood, LeftBoundary, Exists-bound, Exists-earlier, Exists-none, last_good-LeftBoundary,
}
use kosmohack_final.Quality.BirthWindow.{
  DefectReading, EvidenceValue, time_of, last_good, calculate_birth_window,
}
use kosmohack_final.Quality.Records.{ObservationValue, OperationValue, MachineValue, ActionValue}
use kosmohack_final.Prelude.{
  ◌∙◌, Bool, ℕ, ◌≤◌, ◌<◌, ◌≡◌, refl, Option, none, some, List, [], ◌∷◌, false, All, Exists, map,
  any, inl, inr, Bool-cases, arith, ◌⊎◌, if◌then◌else◌, sym, subst,
}

-- A reading once the conflicts among all of them are marked.
abbrev in_view : List ObservationValue → ObservationValue → ObservationValue
in_view all o = if any (opposes o) all then as_conflicted o else o

abbrev pub Contains : List ObservationValue → ObservationValue → Type 0
Contains os o = Exists (λ x. x ≡ o) os

-- The new readings oppose none of those before.
abbrev pub IsUnopposed : List ObservationValue → List ObservationValue → Type 0
IsUnopposed before after =
    All (λ n. Contains before n ⊎ All (λ o. opposes o n ≡ false) before) after

any-false :
    (p : ObservationValue → Bool) (xs : List ObservationValue)
    → any p xs ≡ false
    → (x : ObservationValue) → Contains xs x
    → p x ≡ false
any-false p [] h x e = absurd e
any-false p (y ∷ xs) h x (inl e) = ground arith
any-false p (y ∷ xs) h x (inr e) = any-false p xs (ground arith) x e

All-false :
    (p : ObservationValue → Bool) (xs : List ObservationValue)
    → All (λ x. p x ≡ false) xs
    → any p xs ≡ false
All-false p [] h = refl
All-false p (x ∷ xs) h = ground (arith, All-false p xs h.1, h.0)

All-Contains :
    (P : ObservationValue → Type 0) (xs : List ObservationValue)
    → All P xs
    → (x : ObservationValue) → Contains xs x
    → P x
All-Contains P [] h x e = absurd e
All-Contains P (y ∷ xs) h x (inl e) = subst P e h.0
All-Contains P (y ∷ xs) h x (inr e) = All-Contains P xs h.1 x e

-- A row of the image is the image of a row.
Exists-mapped :
    (P : ObservationValue → Type 0) (f : ObservationValue → ObservationValue)
    (xs : List ObservationValue)
    → Exists P (map f xs)
    → (x : ObservationValue) × Contains xs x × P (f x)
Exists-mapped P f [] h = absurd h
Exists-mapped P f (x ∷ xs) (inl h) = (x, inl refl, h)
Exists-mapped P f (x ∷ xs) (inr h) = let (y, at, p) = Exists-mapped P f xs h in (y, inr at, p)

mapped-Exists :
    (P : ObservationValue → Type 0) (f : ObservationValue → ObservationValue)
    (xs : List ObservationValue) (x : ObservationValue)
    → Contains xs x
    → P (f x)
    → Exists P (map f xs)
mapped-Exists P f [] x e p = absurd e
mapped-Exists P f (y ∷ xs) x (inl e) p = inl (subst (λ z. P (f z)) (sym e) p)
mapped-Exists P f (y ∷ xs) x (inr e) p = inr (mapped-Exists P f xs x e p)

module _ (before after : List ObservationValue) (kept : All (Contains after) before)
    (unopposed : IsUnopposed before after) where
  -- A reading that none opposed before is opposed by none after.
  still_unopposed :
      (o : ObservationValue)
      → Contains before o
      → any (opposes o) before ≡ false
      → any (opposes o) after ≡ false
  still_unopposed o at none_before = All-false (opposes o) after (go after unopposed)
    where
      go :
          (ns : List ObservationValue)
          → All (λ n. Contains before n ⊎ All (λ x. opposes x n ≡ false) before) ns
          → All (λ n. opposes o n ≡ false) ns
      go [] h = tt
      go (n ∷ ns) (inl old, h) = (any-false (opposes o) before none_before n old, go ns h)
      go (n ∷ ns) (inr new, h) = (All-Contains (λ x. opposes x n ≡ false) before new o at, go ns h)

  still_good :
      (d : DefectReading) (o : ObservationValue) (t : ℕ)
      → Contains before o
      → IsTrustedGood d (in_view before o) × ((in_view before o).occurred_at ≡ t)
      → IsTrustedGood d (in_view after o) × ((in_view after o).occurred_at ≡ t)
  still_good d o t at good = elim (Bool-cases (any (opposes o) before)) [
    | inl opposed ↦
        let conflicted : IsTrustedGood d (as_conflicted o) =
          subst (λ b. IsTrustedGood d (if b then as_conflicted o else o)) opposed good.0 in
        absurd (ground (arith, conflicted.status))
    | inr free ↦
        subst
          (λ b.
            IsTrustedGood d (if b then as_conflicted o else o)
            × ((if b then as_conflicted o else o).occurred_at ≡ t))
          (free ∙ sym (still_unopposed o at free)) good
  ]

  found_again :
      (d : DefectReading) (t : ℕ)
      → Exists (λ o. IsTrustedGood d o × (o.occurred_at ≡ t)) (mark_conflicts before)
      → Exists (λ o. IsTrustedGood d o × (o.occurred_at ≡ t)) (mark_conflicts after)
  found_again d t h =
      let Good : ObservationValue → Type 0 = λ o. IsTrustedGood d o × (o.occurred_at ≡ t) in
      let (o, at, good) =
        Exists-mapped Good (in_view before) before
          (subst (Exists Good) (mark_conflicts_pairwise before) h) in
      subst (Exists Good) (sym (mark_conflicts_pairwise after)) (
        mapped-Exists Good (in_view after) after o (All-Contains (Contains after) before kept o at)
          (still_good d o t at good))

  boundary_moves :
      (d : DefectReading) (t : ℕ) (b : Option ℕ)
      → LeftBoundary d (mark_conflicts before) (some t)
      → LeftBoundary d (mark_conflicts after) b
      → (t' : ℕ) × (b ≡ some t') × (t ≤ t') × (t' < d.occurred_at)
  boundary_moves d t none h k = absurd (Exists-none d t _ (found_again d t h.found) k)
  boundary_moves d t (some t') h k = (
    t',
    refl,
    Exists-bound d t t' _ (found_again d t h.found) k.latest,
    Exists-earlier d t' _ k.found,
  )

  -- Readings that arrive late, at whatever places of the replay, and oppose none of those before, never
  -- widen a bounded window: it stays bounded, and its left boundary moves towards the defect or
  -- stays, without reaching it. Conflicts are marked before and after; a late reading that opposes
  -- the left boundary may widen the window.
  pub late_readings_narrow :
      (d : DefectReading) (operations operations' : List OperationValue)
      (machines machines' : List MachineValue) (actions actions' : List ActionValue)
      (limitations limitations' : List EvidenceValue) (t : ℕ)
      → (calculate_birth_window d
          (mark_conflicts before)
          operations
          machines
          actions
          limitations).left_boundary_at
        ≡ some t
      → let w =
          calculate_birth_window d
            (mark_conflicts after)
            operations'
            machines'
            actions'
            limitations' in
        (t' : ℕ) × (w.left_boundary_at ≡ some t') × (t ≤ t') × (t' < d.occurred_at)
  unfolding calculate_birth_window
  late_readings_narrow d operations operations' machines machines' actions actions' limitations
        limitations' t e =
      boundary_moves d t (time_of (last_good d (mark_conflicts after)))
        (subst (LeftBoundary d (mark_conflicts before)) e
          (last_good-LeftBoundary d (mark_conflicts before)))
        (last_good-LeftBoundary d (mark_conflicts after))
