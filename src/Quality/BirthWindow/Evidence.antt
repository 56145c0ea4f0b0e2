-- ===== src/Quality/BirthWindow/Evidence.antt =====
-- Which evidence of backend/app/quality/birth_window.py lies in the window.
use kosmohack_final.Prelude.{
  ℕ, ◌≤◌, ◌<◌, ◌≡◌, refl, Option, none, some, List, [], ◌∷◌, Bool, true, All, All-append, All-map,
  All-cons_if, ◌≢◌, arith, ◌&&◌,
}
use kosmohack_final.Quality.Records.{ObservationValue, OperationValue, MachineValue, ActionValue}
use kosmohack_final.Quality.BirthWindow.{
  DefectReading, EvidenceValue, context, boundary, limitation, operation_row, operation_entry,
  machine_entry, action_entry, inside, operation_evidence, machine_evidence, action_evidence,
  limitation_evidence, good_evidence, last_good, time_of, marker, calculate_birth_window,
}

-- Not before the left boundary, nor at it, and not after the defect.
abbrev pub After : Option ℕ → ℕ → Type 0
After none t = Unit
After (some left) t = left < t

-- An entry of the role CONTEXT has a time, and it lies in the half-open window.
abbrev pub InWindow : Option ℕ → ℕ → EvidenceValue → Type 0
InWindow left defect_time e =
    e.evidence_role ≡ context
    → (t : ℕ) × (e.occurred_at ≡ some t) × After left t × (t ≤ defect_time)

inside→After :
    (left : Option ℕ) (defect_time t : ℕ)
    → inside left defect_time t ≡ true
    → After left t × (t ≤ defect_time)
unfolding inside
inside→After none u t h = (tt, ground arith)
inside→After (some l) u t h = ground arith

and_left : (a b : Bool) → (a && b) ≡ true → a ≡ true
and_left a b h = ground arith

limitation≢context : limitation ≢ context
limitation≢context h = cc

boundary≢context : boundary ≢ context
boundary≢context h = cc

module _ (left : Option ℕ) (u : ℕ) where
  in_window :
      (e : EvidenceValue) (t : ℕ)
      → e.occurred_at ≡ some t
      → inside left u t ≡ true
      → InWindow left u e
  in_window e t same h c = let p = inside→After left u t h in (t, same, p.0, p.1)

  operation_row-inside :
      (x : OperationValue) (m : Option ℕ) (es : List EvidenceValue)
      → All (InWindow left u) es
      → All (InWindow left u) (operation_row (inside left u) x m es)
  operation_row-inside x none es h = h
  operation_row-inside x (some t) es h =
      All-cons_if (InWindow left u) (inside left u t) (operation_entry x t) es
        (in_window (operation_entry x t) t refl) h

  operations_inside :
      (xs : List OperationValue) → All (InWindow left u) (operation_evidence (inside left u) xs)
  unfolding operation_evidence
  operations_inside [] = tt
  operations_inside (x ∷ xs) = operation_row-inside x (marker x) _ (operations_inside xs)

  machines_inside :
      (xs : List MachineValue) → All (InWindow left u) (machine_evidence (inside left u) xs)
  unfolding machine_evidence
  machines_inside [] = tt
  machines_inside (x ∷ xs) =
      All-cons_if (InWindow left u) _ _ _
        (λ e. in_window (machine_entry x) x.occurred_at refl (and_left _ _ e)) (machines_inside xs)

  actions_inside :
      (xs : List ActionValue) → All (InWindow left u) (action_evidence (inside left u) xs)
  unfolding action_evidence
  actions_inside [] = tt
  actions_inside (x ∷ xs) =
      All-cons_if (InWindow left u) _ _ _ (in_window (action_entry x) x.occurred_at refl)
        (actions_inside xs)

  limitations_not_context :
      (xs : List ObservationValue) → All (InWindow left u) (limitation_evidence (inside left u) xs)
  unfolding limitation_evidence
  limitations_not_context [] = tt
  limitations_not_context (x ∷ xs) =
      All-cons_if (InWindow left u) _ _ _ (λ e c. absurd (limitation≢context c))
        (limitations_not_context xs)

  good_not_context : (g : Option ObservationValue) → All (InWindow left u) (good_evidence g)
  good_not_context none = tt
  good_not_context (some g) = (λ c. absurd (boundary≢context c), tt)

-- Every entry of the role CONTEXT that the analysis adds (an operation, a machine state or an
-- operator's action) has a time inside the window: after its left boundary, where there is one,
-- and not after the defect. The limitations that the caller hands over are taken
-- to have another role.
pub context-InWindow :
    (d : DefectReading) (observations : List ObservationValue) (operations : List OperationValue)
    (machines : List MachineValue) (actions : List ActionValue) (limitations : List EvidenceValue)
    → All (λ e. e.evidence_role ≢ context) limitations
    → let w = calculate_birth_window d observations operations machines actions limitations in
      All (InWindow w.left_boundary_at d.occurred_at) w.evidence
unfolding calculate_birth_window
context-InWindow d observations operations machines actions limitations h =
    let good = last_good d observations in
    let left = time_of good in
    let u = d.occurred_at in
    let In = InWindow left u in
    let within = inside left u in
    All-append In (good_evidence good) _ (good_not_context left u good) (
      λ c. absurd (boundary≢context c),
      All-append In (operation_evidence within operations) _ (operations_inside left u operations) (
          All-append In (machine_evidence within machines) _ (machines_inside left u machines) (
            All-append In (action_evidence within actions) _ (actions_inside left u actions) (
              All-append In (limitation_evidence within observations) limitations
                (limitations_not_context left u observations)
                (All-map (λ e. e.evidence_role ≢ context) In limitations (λ e n c. absurd (n c))
                  h)))),
    )
