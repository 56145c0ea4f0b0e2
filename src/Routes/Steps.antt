-- ===== src/Routes/Steps.antt =====
-- backend/app/domain/routes.py: the steps of a revision and their validation.
use kosmohack_final.Prelude.{
  refl, none, ◌≤◌, ◌==◌, truthy, non_empty, false, arith, [], length, cons_if, contains, ◌&&◌,
  if◌then◌else◌, ◌↔◌, ℕ, not, map, some, ◌∷◌, ◌≡◌, Text, Option, List, Bool,
}
use kosmohack_final.Quality.Records.{InspectionScope}
use kosmohack_final.Session.{Result, ok, err, traceq_error, ErrorCode}

pub record StepInput : Type 0 where
  pub operation_id : Text
  pub operation_name : Text
  pub control_point_id : Option Text
  pub required : Bool
  pub inspection_scope : InspectionScope
  pub trust_policy_id : Option ℕ

-- `required_has_control_point`; a body with a step that fails it is answered by 422.
unfoldable pub required_has_control_point : StepInput → Bool
required_has_control_point step = not (step.required && not (truthy step.control_point_id))

-- `set(values)`: each value once.
pub set_of : List ℕ → List ℕ
set_of [] = []
set_of (x ∷ xs) = let rest = set_of xs in if contains x xs then rest else x ∷ rest

abbrev pub with_point : Option Text → List Text → List Text
with_point none points = points
with_point (some p) points = cons_if (non_empty p) p points

-- `[step.control_point_id for step in steps if step.control_point_id]`
pub control_points : List StepInput → List Text
control_points [] = []
control_points (step ∷ steps) = with_point step.control_point_id (control_points steps)

unfoldable pub validate_steps : List StepInput → Result (Unit {0})
unfolding set_of control_points
validate_steps steps =
    let operations = map (λ (s : StepInput). s.operation_id) steps in
    let points = control_points steps in
    if not (length operations == length (set_of operations))
    then err (traceq_error ErrorCode.invalid_route 422)
    else if not (length points == length (set_of points))
    then err (traceq_error ErrorCode.invalid_route 422)
    else ok tt

-- No value stands twice.
abbrev pub Distinct : List ℕ → Type 0
Distinct [] = Unit
Distinct (x ∷ xs) = (contains x xs ≡ false) × Distinct xs

length-set_of : (xs : List ℕ) → length (set_of xs) ≤ length xs
unfolding set_of
length-set_of [] = omega arith
length-set_of (x ∷ xs) = ground (arith, length-set_of xs)

length-set_of-Distinct : (xs : List ℕ) → Distinct xs → length (set_of xs) ≡ length xs
unfolding set_of
length-set_of-Distinct [] h = refl
length-set_of-Distinct (x ∷ xs) h = ground (arith, length-set_of-Distinct xs h.1)

Distinct-set_of : (xs : List ℕ) → length (set_of xs) ≡ length xs → Distinct xs
unfolding set_of
Distinct-set_of [] h = tt
Distinct-set_of (x ∷ xs) h = ground (arith, Distinct-set_of xs, length-set_of xs)

-- The steps of a revision are accepted exactly when no operation and no control point that is
-- named stands in two of them.
pub validate_steps_iff :
    (steps : List StepInput)
    → (validate_steps steps ≡ ok tt)
      ↔ (Distinct (map (λ (s : StepInput). s.operation_id) steps) × Distinct (control_points steps))
unfolding validate_steps
validate_steps_iff steps =
    let operations = map (λ (s : StepInput). s.operation_id) steps in
    let points = control_points steps in
    (
      λ h. (Distinct-set_of operations (ground arith), Distinct-set_of points (ground arith)),
      λ h. ground (arith, length-set_of-Distinct operations h.0, length-set_of-Distinct points h.1),
    )
