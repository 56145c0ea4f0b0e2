-- ===== src/Quality/Trust/Laws.antt =====
-- What a trust status of backend/app/quality/trust.py says of the observation and the policy.
use kosmohack_final.Prelude.{
  ℕ, ◌≤◌, ◌≡◌, ◌≢◌, ◌↔◌, refl, is_none, Option, none, some, List, [], ◌∷◌, Bool, true, false, ◌&&◌,
  arith,
}
use kosmohack_final.Quality.Records.{impossible_to_assess, trusted, InspectionPayload}
use kosmohack_final.Quality.Trust.{
  TrustPolicyValue, is_allowed, is_empty, below_threshold, policy_reasons, evaluate_trust,
}

-- The written rule: what a control point's policy asks of a reading.
pub record MeetsPolicy (observation : InspectionPayload) (policy : TrustPolicyValue)
    (device_valid : Bool) : Type 0 where
  pub quality : is_allowed observation.observation_quality policy.allowed_observation_quality ≡ true
  pub confidence : policy.confidence_required ≡ true → (c : ℕ) × (observation.confidence ≡ some c)
  pub threshold :
      (least : ℕ)
      → policy.min_confidence ≡ some least
      → (c : ℕ) × (observation.confidence ≡ some c) × (least ≤ c)
  pub device : policy.requires_valid_device ≡ true → device_valid ≡ true
  pub media : policy.media_required ≡ true → observation.evidence_refs ≢ []

no_reasons→MeetsPolicy :
    (o : InspectionPayload) (p : TrustPolicyValue) (d : Bool)
    → policy_reasons o p d ≡ []
    → MeetsPolicy o p d
unfolding policy_reasons
no_reasons→MeetsPolicy o p d e = record {
  quality = ground arith;
  confidence = λ r. ground arith;
  threshold = λ least r. ground arith;
  device = ground arith;
  media = ground arith;
}

below_threshold-false :
    (least c : Option ℕ)
    → ((l : ℕ) → least ≡ some l → (x : ℕ) × (c ≡ some x) × (l ≤ x))
    → below_threshold least c ≡ false
below_threshold-false none c h = refl
below_threshold-false (some l) c h = ground (arith, h l refl)

confidence_false :
    (required : Bool) (c : Option ℕ)
    → (required ≡ true → (x : ℕ) × (c ≡ some x))
    → (required && is_none c) ≡ false
confidence_false false c h = refl
confidence_false true c h = ground (arith, h refl)

media_false :
    {A : Type 0} (required : Bool) (refs : List A)
    → (required ≡ true → refs ≢ [])
    → (required && is_empty refs) ≡ false
media_false false refs h = refl
media_false true [] h = absurd (h refl refl)
media_false true (x ∷ refs) h = refl

MeetsPolicy→no_reasons :
    (o : InspectionPayload) (p : TrustPolicyValue) (d : Bool)
    → MeetsPolicy o p d
    → policy_reasons o p d ≡ []
unfolding policy_reasons
MeetsPolicy→no_reasons o p d m = ground (
  arith,
  below_threshold-false p.min_confidence o.confidence m.threshold,
  confidence_false p.confidence_required o.confidence m.confidence,
  media_false p.media_required o.evidence_refs m.media,
)

-- A reading is trusted exactly when the inspection could assess the part, its device is not
-- invalidated, it is not in conflict, and it meets every requirement of the policy: an allowed
-- quality, a confidence where one is required, a confidence of at least the threshold where there
-- is one, a valid device and media where they are required.
pub trusted_iff_meets :
    (o : InspectionPayload) (p : TrustPolicyValue) (d i c : Bool)
    → ((evaluate_trust o p d i c).status ≡ trusted) ↔ (
        (o.inspection_result ≢ impossible_to_assess)
        × (i ≡ false)
        × (c ≡ false)
        × MeetsPolicy o p d)
unfolding evaluate_trust
trusted_iff_meets o p d i c = (
  λ h. (ground arith, ground arith, ground arith, no_reasons→MeetsPolicy o p d (ground arith)),
  λ h. ground (arith, MeetsPolicy→no_reasons o p d h.3),
)

-- Every verdict but `TRUSTED` comes with a reason, and `TRUSTED` with none.
no_reasons_iff_trusted :
    (o : InspectionPayload) (p : TrustPolicyValue) (d i c : Bool)
    → ((evaluate_trust o p d i c).reasons ≡ []) ↔ ((evaluate_trust o p d i c).status ≡ trusted)
unfolding evaluate_trust
no_reasons_iff_trusted o p d i c = (λ h. ground arith, λ h. ground arith)
