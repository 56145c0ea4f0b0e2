-- ===== src/Nonconformance/Gates.antt =====
-- What the guards of backend/app/api/nonconformances.py and of the release policy refuse.
use kosmohack_final.Models.Delivery.{QualityResult}
use kosmohack_final.Nonconformance.Containment.{
  reviewed, review_status, get_proposal, is_pending, review_containment,
}
use kosmohack_final.Prelude.{
  inr, refl, inl, ◌≢◌, Option-cases, if◌then◌else◌, find-update, find-key, update, ◌&&◌, ◌==◌, none,
  Text, find, Bool, List, ℕ, ◌≡◌, some, true, false, arith,
}
use kosmohack_final.Session.{traceq_error, ErrorCode}
use kosmohack_final.Models.Quality.{
  ContainmentProposal, Containment, Disposition, ResolutionType, VerificationStatus, Nonconformance,
}
use kosmohack_final.Nonconformance.Tables.{Tables, get_ncr, has_failed_evidence}
use kosmohack_final.Nonconformance.Release.{create_result, is_rework, is_passed, is_exportable}
use kosmohack_final.Nonconformance.Handlers.{Caller, DecisionRequest, decide_nonconformance}
use kosmohack_final.Nonconformance.Rework.{
  not_verified, verified, has_trusted_good, rework_finished, ReworkVerificationRequest,
  verify_rework,
}
use kosmohack_final.Nonconformance.Atomicity.{assess, serve, decide, verify}

-- A nonconformance that is resolved by rework cannot be closed by a decision before the rework
-- is verified: a decision to release, scrap or use the part as it is is answered by
-- REWORK_VERIFICATION_REQUIRED and changes nothing.
pub rework_gate :
    (now new_id : ℕ) (c : Caller) (id : ℕ) (body : DecisionRequest) (db : Tables)
    (ncr : Nonconformance)
    → get_ncr id db ≡ some ncr
    → has_failed_evidence ncr.item_id db ≡ false
    → is_rework ncr.resolution_type ≡ true
    → is_passed ncr.verification_status ≡ false
    → is_exportable body.disposition ≡ true
    → serve now new_id c (decide id body) db
      ≡ (some (traceq_error ErrorCode.rework_verification_required 409), db)
unfolding serve decide_nonconformance create_result
rework_gate now new_id c id body db ncr found intact rework pending exportable = ground arith

-- A saved nonconformance is the one that is found.
get-save :
    (id k : ℕ) (xs : List Nonconformance) (ncr v : Nonconformance)
    → k ≡ id
    → v.id ≡ id
    → find (λ r. r.id == id) xs ≡ some ncr
    → find (λ r. r.id == id) (update (λ r. r.id == k) (λ _. v) xs) ≡ some v
get-save id k xs ncr v same h e =
    find-update (λ (r : Nonconformance). r.id) (λ _. v) id k xs ncr (λ _ _. h) same e

get-id :
    (id : ℕ) (xs : List Nonconformance) (ncr : Nonconformance)
    → find (λ r. r.id == id) xs ≡ some ncr
    → ncr.id ≡ id
get-id id xs ncr e = find-key (λ (r : Nonconformance). r.id) id xs ncr e

-- Given a completed rework of a nonconformance whose evidence is intact, and a new decision
-- without a result, the verification passes exactly when the controller approves it and a trusted
-- inspection without a finding followed the rework. Then the nonconformance is released, free of
-- containment and closed; otherwise it stays on hold for rework, and is not closed.
pub verify_outcome :
    (now new_id : ℕ) (c : Caller) (id : ℕ) (check : ReworkVerificationRequest) (db : Tables)
    (ncr : Nonconformance) (finished_at : ℕ)
    → get_ncr id db ≡ some ncr
    → has_failed_evidence ncr.item_id db ≡ false
    → rework_finished ncr db.operation_runs ≡ some finished_at
    → find (λ (q : QualityResult). q.decision_id == new_id) db.quality_results ≡ none
    → let pass = check.approved && has_trusted_good ncr.item_id finished_at db.observations in
      get_ncr id (serve now new_id c (verify id check) db).1
      ≡ some (
          if pass
          then record ncr {
            verification_decision_id = some new_id;
            verification_status = some VerificationStatus.passed;
            resolution_type = some ResolutionType.rework;
            resolved_at = some now;
            disposition = Disposition.released;
            containment = Containment.uncontained;
            closed_at = some now;
          }
          else record ncr {
            verification_decision_id = some new_id;
            verification_status = some VerificationStatus.failed;
            disposition = Disposition.rework_required;
            containment = Containment.hold;
          })
unfolding serve verify_rework create_result
verify_outcome now new_id c id check db ncr finished_at e intact f fresh =
    let v = verified now new_id ncr in
    let closed = record v { closed_at = some now } in
    let xs = db.nonconformances in
    ground (
      arith,
      get-id id xs ncr e,
      get-save id ncr.id xs ncr (not_verified new_id ncr),
      get-save id ncr.id xs ncr v,
      get-save id ncr.id (update (λ r. r.id == ncr.id) (λ _. v) xs) v closed,
    )

not_pending : (approve : Bool) → is_pending (review_status approve) ≡ false
not_pending true = refl
not_pending false = refl

first_review :
    (now n : ℕ) (c : Caller) (id : ℕ) (approve : Bool) (reason : Text) (db : Tables)
    (p : ContainmentProposal)
    → get_proposal id db ≡ some p
    → (serve now n c (assess id approve reason) db).0 ≡ none
    → get_proposal id (serve now n c (assess id approve reason) db).1
      ≡ some (reviewed now c (review_status approve) reason p)
unfolding serve review_containment
first_review now n c id approve reason db p e h = ground (
  arith,
  find-key (λ (r : ContainmentProposal). r.id) id db.proposals p,
  find-update (λ (r : ContainmentProposal). r.id) (reviewed now c (review_status approve) reason) id
      p.id db.proposals p (λ x k. k),
)

second_review :
    (now n : ℕ) (c : Caller) (id : ℕ) (approve : Bool) (reason : Text) (db : Tables)
    (p : ContainmentProposal)
    → get_proposal id db ≡ some p
    → is_pending p.status ≡ false
    → serve now n c (assess id approve reason) db
      ≡ (some (traceq_error ErrorCode.proposal_already_reviewed 409), db)
unfolding serve review_containment
second_review now n c id approve reason db p e h = ground arith

no_review :
    (now n : ℕ) (c : Caller) (id : ℕ) (approve : Bool) (reason : Text) (db : Tables)
    → get_proposal id db ≡ none
    → (serve now n c (assess id approve reason) db).0 ≢ none
unfolding serve review_containment
no_review now n c id approve reason db e h = ground arith

-- A containment proposal is reviewed at most once: whoever reviews it again, after any review that
-- went through, is answered by PROPOSAL_ALREADY_REVIEWED.
pub review_once :
    (now now' n n' : ℕ) (c c' : Caller) (id : ℕ) (approve approve' : Bool) (reason reason' : Text)
    (db : Tables)
    → (serve now n c (assess id approve reason) db).0 ≡ none
    → let db' = (serve now n c (assess id approve reason) db).1 in
      serve now' n' c' (assess id approve' reason') db'
      ≡ (some (traceq_error ErrorCode.proposal_already_reviewed 409), db')
review_once now now' n n' c c' id approve approve' reason reason' db h =
    elim (Option-cases (get_proposal id db)) [
      | inl e ↦ absurd (no_review now n c id approve reason db e h)
      | inr (p, e) ↦
          second_review now' n' c' id approve' reason' _
            (reviewed now c (review_status approve) reason p)
            (first_review now n c id approve reason db p e h) (not_pending approve)
    ]
