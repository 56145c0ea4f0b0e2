-- ===== src/Quality/Trust.antt =====
-- backend/app/quality/trust.py: the trust of an inspection under the policy of its control point,
-- and the scope of an inspection.
pub mod Laws
use kosmohack_final.Prelude.{
  ℕ, Text, Option, none, some, List, [], ◌∷◌, ◌++◌, Bool, true, false, not, ◌&&◌, ◌||◌, ltb,
  contains, is_none, if◌then◌else◌,
}
use kosmohack_final.Quality.Records.{
  InspectionResult, no_defect, defect_detected, impossible_to_assess, ObservationQuality, good,
  poor, unknown, TrustStatus, trusted, untrusted, unassessable, conflicted, invalidated, Reason,
  InspectionScope, unscoped, defect_list, scoped, InspectionPayload,
}

pub record TrustPolicyValue : Type 0 where
  pub allowed_observation_quality : List ObservationQuality
  pub confidence_required : Bool
  pub min_confidence : Option ℕ
  pub requires_valid_device : Bool
  pub media_required : Bool

-- `TrustPolicyValue()`
abbrev pub default_policy : TrustPolicyValue
default_policy = record {
  allowed_observation_quality = good ∷ [];
  confidence_required = false;
  min_confidence = none;
  requires_valid_device = false;
  media_required = false;
}

pub record TrustResult : Type 0 where
  pub status : TrustStatus
  pub reasons : List Reason

abbrev pub is_impossible : InspectionResult → Bool
is_impossible impossible_to_assess = true
is_impossible no_defect = false
is_impossible defect_detected = false

abbrev pub quality_eq : ObservationQuality → ObservationQuality → Bool
quality_eq good good = true
quality_eq poor poor = true
quality_eq unknown unknown = true
quality_eq _ _ = false

-- `quality in allowed`
abbrev pub is_allowed : ObservationQuality → List ObservationQuality → Bool
is_allowed q [] = false
is_allowed q (x ∷ xs) = quality_eq q x || is_allowed q xs

-- `min_confidence is not None and (confidence is None or confidence < min_confidence)`
abbrev pub below_threshold : Option ℕ → Option ℕ → Bool
below_threshold none confidence = false
below_threshold (some least) none = true
below_threshold (some least) (some c) = ltb c least

abbrev pub is_empty {ℓ} : {A : Type ℓ} → List A → Bool
is_empty [] = true
is_empty (x ∷ xs) = false

-- `if test: reasons.append(reason)`
abbrev pub reason_if : Bool → Reason → List Reason
reason_if true r = r ∷ []
reason_if false r = []

pub policy_reasons : InspectionPayload → TrustPolicyValue → Bool → List Reason
policy_reasons observation policy device_valid =
    reason_if (not (is_allowed observation.observation_quality policy.allowed_observation_quality))
      Reason.observation_quality_not_allowed
    ++ (reason_if (policy.confidence_required && is_none observation.confidence)
          Reason.confidence_required
        ++ (reason_if (below_threshold policy.min_confidence observation.confidence)
              Reason.confidence_below_threshold
            ++ (reason_if (policy.requires_valid_device && not device_valid)
                  Reason.device_validity_not_confirmed
                ++ reason_if (policy.media_required && is_empty observation.evidence_refs)
                    Reason.media_required)))

unfoldable pub evaluate_trust :
    InspectionPayload
    → TrustPolicyValue
    → (device_valid is_invalidated is_conflicted : Bool) → TrustResult
unfolding policy_reasons
evaluate_trust observation policy device_valid is_invalidated is_conflicted =
    let reasons = policy_reasons observation policy device_valid in
    if is_impossible observation.inspection_result
    then record { status = unassessable; reasons = Reason.inspection_impossible_to_assess ∷ [] }
    else if is_invalidated
    then record { status = invalidated; reasons = Reason.control_device_invalidated ∷ [] }
    else if is_conflicted
    then record { status = conflicted; reasons = Reason.equivalent_observations_conflict ∷ [] }
    else if is_empty reasons
    then record { status = trusted; reasons = [] }
    else record { status = untrusted; reasons = reasons }

-- The entry "*" of a scope.
abbrev pub wildcard : Text
wildcard = 1

-- `scope.get(key, ["*"])`
abbrev pub or_wildcard : Option (List Text) → List Text
or_wildcard none = wildcard ∷ []
or_wildcard (some xs) = xs

abbrev pub component_ok : Option Text → List Text → Bool
component_ok none components = true
component_ok (some c) components = contains wildcard components || contains c components

unfoldable pub scope_covers : InspectionScope → Text → Option Text → Bool
scope_covers unscoped defect_type component = true
scope_covers (defect_list defects) defect_type component =
    contains defect_type defects || contains wildcard defects
scope_covers (scoped defects components) defect_type component =
    (contains wildcard (or_wildcard defects) || contains defect_type (or_wildcard defects))
    && component_ok component (or_wildcard components)
