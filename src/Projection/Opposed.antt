-- ===== src/Projection/Opposed.antt =====
-- What the marking of conflicts in backend/app/projections/rebuild.py does.
use kosmohack_final.Projection.Conflicts.{
  in_bucket, in_session, occasion_eq, group_of, mark_conflict, Occasion, as_conflicted,
  has_two_results, group_key, key_eq, mark_conflicts, GroupKey, result_eq,
}
use kosmohack_final.Quality.Records.{
  InspectionResult, no_defect, defect_detected, impossible_to_assess, ObservationValue,
}
use kosmohack_final.Prelude.{
  ap, ◌∙◌, sym, opt_eq_refl, ==_refl, subst, inr, inl, [], Bool-cases, All-map, refl, not, ◌∷◌,
  arith, ◌&&◌, if◌then◌else◌, map, select, false, true, All, any, ◌≡◌, List, Bool,
}

result_eq→eq : (a b : InspectionResult) → result_eq a b ≡ true → a ≡ b
result_eq→eq no_defect no_defect h = refl
result_eq→eq defect_detected defect_detected h = refl
result_eq→eq impossible_to_assess impossible_to_assess h = refl
result_eq→eq no_defect defect_detected h = ground arith
result_eq→eq no_defect impossible_to_assess h = ground arith
result_eq→eq defect_detected no_defect h = ground arith
result_eq→eq defect_detected impossible_to_assess h = ground arith
result_eq→eq impossible_to_assess no_defect h = ground arith
result_eq→eq impossible_to_assess defect_detected h = ground arith

result_eq_refl : (a : InspectionResult) → result_eq a a ≡ true
result_eq_refl no_defect = refl
result_eq_refl defect_detected = refl
result_eq_refl impossible_to_assess = refl

occasion_eq_refl : (a : Occasion) → occasion_eq a a ≡ true
occasion_eq_refl (in_session s) = ==_refl s
occasion_eq_refl (in_bucket n) = ==_refl n

key_eq_refl : (a : GroupKey) → key_eq a a ≡ true
key_eq_refl a = ground (
  arith,
  occasion_eq_refl a.occasion,
  ==_refl a.control_point_id,
  opt_eq_refl a.component_instance_id,
)

any-select :
    {A : Type 0} (p q : A → Bool) (xs : List A) → any q (select p xs) ≡ any (λ x. p x && q x) xs
any-select p q [] = refl
any-select p q (x ∷ xs) = ground (arith, any-select p q xs)

-- Each row passes a reflexive test against some row.
any_self :
    {A : Type 0} (p : A → A → Bool) (xs : List A)
    → ((x : A) → p x x ≡ true)
    → All (λ x. any (λ o. p o x) xs ≡ true) xs
any_self p [] same = tt
any_self p (x ∷ xs) same = (
  ground (arith, same x),
  All-map (λ y. any (λ o. p o y) xs ≡ true) (λ y. any (λ o. p o y) (x ∷ xs) ≡ true) xs
      (λ y h. ground (arith, h)) (any_self p xs same),
)

abbrev with_result : InspectionResult → ObservationValue → Bool
with_result r o = result_eq o.inspection_result r

-- In a group in which a result occurs, two results occur exactly when another one does.
differs_from_first :
    (r s : InspectionResult) (os : List ObservationValue)
    → result_eq s r ≡ false
    → any (with_result r) os ≡ true
    → any (λ x. not (with_result s x)) os ≡ true
differs_from_first r s [] ne h = ground arith
differs_from_first r s (o ∷ os) ne h = elim (Bool-cases (result_eq o.inspection_result s)) [
  | inl same ↦ ground (
    arith,
    result_eq→eq o.inspection_result s same,
    differs_from_first r s os ne,
    subst (λ x. result_eq x r ≡ false) (sym (result_eq→eq o.inspection_result s same)) ne,
  )
  | inr other ↦ ground arith
]

two_results :
    (r : InspectionResult) (group : List ObservationValue)
    → any (with_result r) group ≡ true
    → has_two_results group ≡ any (λ x. not (with_result r x)) group
two_results r [] h = refl
two_results r (o ∷ os) h = elim (Bool-cases (result_eq o.inspection_result r)) [
  | inl same ↦ rw (result_eq→eq o.inspection_result r same, result_eq_refl r) refl
  | inr other ↦ ground (arith, differs_from_first r o.inspection_result os other)
]

-- Another reading of the group came to another result.
abbrev pub opposes : ObservationValue → ObservationValue → Bool
opposes obs o =
    key_eq (group_key o) (group_key obs)
    && not (result_eq o.inspection_result obs.inspection_result)

abbrev same_reading : ObservationValue → ObservationValue → Bool
same_reading o obs = key_eq (group_key o) (group_key obs) && with_result obs.inspection_result o

marked :
    (obs : ObservationValue) (all : List ObservationValue)
    → any (λ o. same_reading o obs) all ≡ true
    → mark_conflict all obs ≡ (if any (opposes obs) all then as_conflicted obs else obs)
marked obs all h =
    let group = group_of (group_key obs) all in
    let occurs : any (with_result obs.inspection_result) group ≡ true =
      any-select (λ o. key_eq (group_key o) (group_key obs)) (with_result obs.inspection_result) all
      ∙ h in
    ap (λ b. if b then as_conflicted obs else obs)
      (two_results obs.inspection_result group occurs
        ∙ any-select (λ o. key_eq (group_key o) (group_key obs))
            (λ o. not (with_result obs.inspection_result o)) all)

map-All : {A B : Type 0} (f g : A → B) (xs : List A) → All (λ x. f x ≡ g x) xs → map f xs ≡ map g xs
map-All f g [] h = refl
map-All f g (x ∷ xs) h = cc (h.0, map-All f g xs h.1)

-- The grouping marks exactly the readings that another one opposes, which was taken on the same
-- occasion at the same control point and component and came to another result; all others stay as
-- they are. Neither reading need be trusted or assessed: a part that could not be assessed opposes a
-- finding as well, and its reading is marked.
pub mark_conflicts_pairwise :
    (all : List ObservationValue)
    → mark_conflicts all ≡ map (λ obs. if any (opposes obs) all then as_conflicted obs else obs) all
unfolding mark_conflicts
mark_conflicts_pairwise all = map-All _ _ all (
    All-map (λ obs. any (λ o. same_reading o obs) all ≡ true) _ all (λ obs h. marked obs all h)
      (any_self same_reading all
        (λ o. ground (arith, key_eq_refl (group_key o), result_eq_refl o.inspection_result))))
