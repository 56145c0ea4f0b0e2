-- ===== src/Quality/BirthWindow/Laws.antt =====
-- The boundaries of the birth window of backend/app/quality/birth_window.py.
use kosmohack_final.Prelude.{
  ℕ, ◌≤◌, ◌<◌, ◌≡◌, refl, Option, none, some, List, [], ◌∷◌, true, false, All, Exists, All-map,
  select, inl, inr, Bool-cases, arith, ltb, ◌⊎◌, opt_eq→eq, opt_eq_refl,
}
use kosmohack_final.Quality.Records.{
  ObservationValue, trusted, no_defect, OperationValue, MachineValue, ActionValue,
}
use kosmohack_final.Quality.Trust.{scope_covers}
use kosmohack_final.Quality.BirthWindow.{
  DefectReading, EvidenceValue, is_candidate, later, latest_from, latest, last_good, time_of,
  calculate_birth_window, window_status,
}

-- An inspection that bounds the window on the left: before the defect, trusted, without a finding,
-- of a scope that covers the defect, and of no other component.
pub record IsTrustedGood (defect : DefectReading) (o : ObservationValue) : Type 0 where
  pub earlier : o.occurred_at < defect.occurred_at
  pub status : o.trust_status ≡ trusted
  pub result : o.inspection_result ≡ no_defect
  pub scope : scope_covers o.inspection_scope defect.defect_type defect.component_instance_id ≡ true
  pub component :
      ((o.component_instance_id ≡ none) ⊎ (o.component_instance_id ≡ defect.component_instance_id))
      ⊎ (defect.component_instance_id ≡ none)

is_candidate→IsTrustedGood :
    (d : DefectReading) (o : ObservationValue) → is_candidate d o ≡ true → IsTrustedGood d o
unfolding is_candidate
is_candidate→IsTrustedGood d o h =
    ground (arith, opt_eq→eq o.component_instance_id d.component_instance_id)

IsTrustedGood→is_candidate :
    (d : DefectReading) (o : ObservationValue) → IsTrustedGood d o → is_candidate d o ≡ true
unfolding is_candidate
IsTrustedGood→is_candidate d o h = ground (arith, opt_eq_refl d.component_instance_id)

-- Some trusted good inspection is at `t`, and none is later.
pub record IsLatestGood (defect : DefectReading) (xs : List ObservationValue) (t : ℕ) : Type 0 where
  pub found : Exists (λ o. IsTrustedGood defect o × (o.occurred_at ≡ t)) xs
  pub latest : All (λ o. IsTrustedGood defect o → o.occurred_at ≤ t) xs

later-ge :
    (a b : ObservationValue)
    → (a.occurred_at ≤ (later a b).occurred_at) × (b.occurred_at ≤ (later a b).occurred_at)
unfolding later
later-ge a b = ground arith

later-either : (P : ObservationValue → Type 0) (a b : ObservationValue) → P a → P b → P (later a b)
unfolding later
later-either P a b pa pb = elim (Bool-cases (ltb a.occurred_at b.occurred_at)) [
  | inl e ↦ rw e pb
  | inr e ↦ rw e pa
]

latest_from-ge :
    (best : ObservationValue) (xs : List ObservationValue)
    → best.occurred_at ≤ (latest_from best xs).occurred_at
unfolding latest_from
latest_from-ge best [] = omega arith
latest_from-ge best (o ∷ xs) = omega (arith, latest_from-ge (later best o) xs, later-ge best o)

latest_from-All :
    (best : ObservationValue) (xs : List ObservationValue)
    → All (λ o. o.occurred_at ≤ (latest_from best xs).occurred_at) xs
unfolding latest_from
latest_from-All best [] = tt
latest_from-All best (o ∷ xs) = (
  omega (arith, latest_from-ge (later best o) xs, later-ge best o),
  latest_from-All (later best o) xs,
)

latest_from-either :
    (P : ObservationValue → Type 0) (best : ObservationValue) (xs : List ObservationValue)
    → P best
    → All P xs
    → P (latest_from best xs)
unfolding latest_from
latest_from-either P best [] pb ps = pb
latest_from-either P best (o ∷ xs) pb ps =
    latest_from-either P (later best o) xs (later-either P best o pb ps.0) ps.1

module _ (d : DefectReading) where
  -- What `latest` finds among the candidates, as a statement about all observations.
  abbrev pub LeftBoundary : List ObservationValue → Option ℕ → Type 0
  LeftBoundary xs none = All (λ o. ¬ IsTrustedGood d o) xs
  LeftBoundary xs (some t) = IsLatestGood d xs t

  not-candidate : (o : ObservationValue) → is_candidate d o ≡ false → ¬ IsTrustedGood d o
  not-candidate o e h = cc (e, IsTrustedGood→is_candidate d o h)

  All-select : (xs : List ObservationValue) → All (IsTrustedGood d) (select (is_candidate d) xs)
  All-select [] = tt
  All-select (o ∷ xs) = elim (Bool-cases (is_candidate d o)) [
    | inl e ↦ rw e (is_candidate→IsTrustedGood d o e, All-select xs)
    | inr e ↦ rw e (All-select xs)
  ]

  -- A bound on the selected rows is a bound on the good ones among all.
  All-unselect :
      (P : ObservationValue → Type 0) (xs : List ObservationValue)
      → All P (select (is_candidate d) xs)
      → All (λ o. IsTrustedGood d o → P o) xs
  All-unselect P [] h = tt
  All-unselect P (o ∷ xs) h = elim (Bool-cases (is_candidate d o)) [
    | inl e ↦
        let k : P o × All P (select (is_candidate d) xs) = rw e at h in
        (λ _. k.0, All-unselect P xs k.1)
    | inr e ↦ (λ g. absurd (not-candidate o e g), All-unselect P xs (rw e at h))
  ]

  -- `o` is the time of some trusted good inspection among `xs`.
  abbrev At : List ObservationValue → ObservationValue → Type 0
  At xs o = Exists (λ x. IsTrustedGood d x × (x.occurred_at ≡ o.occurred_at)) xs

  All-selected : (xs : List ObservationValue) → All (At xs) (select (is_candidate d) xs)
  All-selected [] = tt
  All-selected (o ∷ xs) =
      let rest : All (At (o ∷ xs)) (select (is_candidate d) xs) =
        All-map (At xs) (At (o ∷ xs)) (select (is_candidate d) xs) (λ x h. inr h)
          (All-selected xs) in
      elim (Bool-cases (is_candidate d o)) [
        | inl e ↦ rw e (inl (is_candidate→IsTrustedGood d o e, refl), rest)
        | inr e ↦ rw e rest
      ]

  pub last_good-LeftBoundary :
      (xs : List ObservationValue) → LeftBoundary xs (time_of (last_good d xs))
  unfolding last_good
  last_good-LeftBoundary xs =
      go (select (is_candidate d) xs) (All-selected xs) (λ P. All-unselect P xs)
    where
      go :
          (ys : List ObservationValue)
          → All (At xs) ys
          → ((P : ObservationValue → Type 0) → All P ys → All (λ o. IsTrustedGood d o → P o) xs)
          → LeftBoundary xs (time_of (latest ys))
      go [] h un = un (λ _. ⊥) tt
      go (g ∷ ys) h un = record {
        found = latest_from-either (At xs) g ys h.0 h.1;
        latest =
            un (λ o. o.occurred_at ≤ (latest_from g ys).occurred_at)
              (latest_from-ge g ys, latest_from-All g ys);
      }

-- The window ends at the defect. It begins at the latest trusted good inspection of the defect's
-- scope and component before it, and is then bounded; where there is no such inspection, and only
-- there, it is open on the left.
pub window_exact :
    (d : DefectReading) (observations : List ObservationValue) (operations : List OperationValue)
    (machines : List MachineValue) (actions : List ActionValue) (limitations : List EvidenceValue)
    → let w = calculate_birth_window d observations operations machines actions limitations in
      LeftBoundary d observations w.left_boundary_at
      × (w.status ≡ window_status w.left_boundary_at)
      × (w.right_boundary_at ≡ some d.occurred_at)
unfolding calculate_birth_window
window_exact d observations operations machines actions limitations =
    (last_good-LeftBoundary d observations, refl, refl)

pub Exists-bound :
    (d : DefectReading) (t u : ℕ) (xs : List ObservationValue)
    → Exists (λ o. IsTrustedGood d o × (o.occurred_at ≡ t)) xs
    → All (λ o. IsTrustedGood d o → o.occurred_at ≤ u) xs
    → t ≤ u
Exists-bound d t u [] h k = absurd h
Exists-bound d t u (o ∷ xs) (inl h) k = omega (arith, k.0 h.0)
Exists-bound d t u (o ∷ xs) (inr h) k = Exists-bound d t u xs h k.1

pub Exists-earlier :
    (d : DefectReading) (t : ℕ) (xs : List ObservationValue)
    → Exists (λ o. IsTrustedGood d o × (o.occurred_at ≡ t)) xs
    → t < d.occurred_at
Exists-earlier d t [] h = absurd h
Exists-earlier d t (o ∷ xs) (inl h) = omega (arith, h.0.earlier)
Exists-earlier d t (o ∷ xs) (inr h) = Exists-earlier d t xs h

pub Exists-none :
    (d : DefectReading) (t : ℕ) (xs : List ObservationValue)
    → Exists (λ o. IsTrustedGood d o × (o.occurred_at ≡ t)) xs
    → All (λ o. ¬ IsTrustedGood d o) xs
    → ⊥
Exists-none d t [] h k = h
Exists-none d t (o ∷ xs) (inl h) k = k.0 h.0
Exists-none d t (o ∷ xs) (inr h) k = Exists-none d t xs h k.1
