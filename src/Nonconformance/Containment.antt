-- ===== src/Nonconformance/Containment.antt =====
-- The extra inspection, the notes and the containment proposals of
-- backend/app/api/nonconformances.py.
use kosmohack_final.Prelude.{
  ℕ, Text, Option, none, some, [], ◌∷◌, ◌++◌, Bool, true, false, not, find, update, ◌==◌,
  if◌then◌else◌,
}
use kosmohack_final.Session.{
  Action, gets, pure, modify, commit, or_raise, raise_if, skip, ◌>>=◌, ◌>>◌, traceq_error,
  not_found_error, ErrorCode,
}
use kosmohack_final.Models.Quality.{
  ControllerDecision, Verdict, Containment, Nonconformance, ContainmentProposal, ProposalStatus,
}
use kosmohack_final.Models.Log.{AuditAction, AuditOutcome, AuditTarget}
use kosmohack_final.Nonconformance.Tables.{
  Tables, get_ncr, ncr_or_404, latest_decision, id_of, add_decision, save_ncr, write_audit,
}
use kosmohack_final.Nonconformance.Handlers.{Caller, audit}

abbrev pub inspection_decision :
    (new_id : ℕ) → Caller → Nonconformance → (reason : Text) → Option ℕ → ControllerDecision
inspection_decision new_id caller ncr reason previous = record {
  id = new_id;
  nonconformance_id = ncr.id;
  user_id = caller.user_id;
  verdict = Verdict.needs_extra_check;
  disposition = ncr.disposition;
  containment = Containment.reinspection_required;
  reason = reason;
  analysis_version = ncr.current_analysis_version;
  previous_decision_id = previous;
}

unfoldable pub request_inspection :
    (new_id : ℕ) → Caller → (ncr_id : ℕ) → (reason : Text) → Action Tables ℕ
request_inspection new_id caller ncr_id reason = do
  ncr ← ncr_or_404 ncr_id
  latest ← gets (λ db. latest_decision ncr.id db.decisions)
  add_decision (inspection_decision new_id caller ncr reason (id_of latest))
  save_ncr (record ncr {
    verdict = Verdict.needs_extra_check;
    containment = Containment.reinspection_required;
  })
  write_audit (
      audit caller AuditAction.extra_inspection_request AuditOutcome.success
        AuditTarget.nonconformance ncr.id)
  commit
  pure new_id

unfoldable pub add_investigation_note :
    (new_id : ℕ) → Caller → (ncr_id : ℕ) → (body : Text) → Action Tables ℕ
add_investigation_note new_id caller ncr_id body = do
  ncr ← ncr_or_404 ncr_id
  modify (λ db. record db {
    notes =
        db.notes
        ++ record {
          id = new_id;
          nonconformance_id = ncr.id;
          author_user_id = caller.user_id;
          body = body;
        }
          ∷ [];
  })
  write_audit (
      audit caller AuditAction.investigation_note_create AuditOutcome.success
        AuditTarget.nonconformance ncr.id)
  commit
  pure new_id

-- The containments that a proposal may name.
pub data ProposedContainment : Type 0 where
  hold reinspection_required review_required : ProposedContainment

abbrev pub proposed_containment : ProposedContainment → Containment
proposed_containment ProposedContainment.hold = Containment.hold
proposed_containment ProposedContainment.reinspection_required = Containment.reinspection_required
proposed_containment ProposedContainment.review_required = Containment.review_required

unfoldable pub propose_containment :
    (new_id : ℕ)
    → Caller
    → (ncr_id : ℕ) → ProposedContainment
    → (rationale : Text) → Action Tables ProposalStatus
propose_containment new_id caller ncr_id containment rationale = do
  ncr ← ncr_or_404 ncr_id
  modify (λ db. record db {
    proposals =
        db.proposals
        ++ record {
          id = new_id;
          nonconformance_id = some ncr.id;
          proposed_by = caller.user_id;
          containment = proposed_containment containment;
          rationale = rationale;
          status = ProposalStatus.pending;
          reviewed_by = none;
          review_reason = none;
          reviewed_at = none;
        }
          ∷ [];
  })
  write_audit (
      audit caller AuditAction.containment_proposal AuditOutcome.success AuditTarget.nonconformance
        ncr.id)
  commit
  pure ProposalStatus.pending

abbrev pub is_pending : ProposalStatus → Bool
is_pending ProposalStatus.pending = true
is_pending ProposalStatus.approved = false
is_pending ProposalStatus.rejected = false

abbrev pub get_proposal : ℕ → Tables → Option ContainmentProposal
get_proposal id db = find (λ p. p.id == id) db.proposals

-- `_ncr_or_404` at an optional id
abbrev pub ncr_of : Option ℕ → Tables → Option Nonconformance
ncr_of none db = none
ncr_of (some id) db = get_ncr id db

abbrev pub reviewed : ℕ → Caller → ProposalStatus → Text → ContainmentProposal → ContainmentProposal
reviewed now caller status reason p = record p {
  status = status;
  reviewed_by = some caller.user_id;
  review_reason = some reason;
  reviewed_at = some now;
}

-- `"approved" if approve else "rejected"`
abbrev pub review_status : Bool → ProposalStatus
review_status true = ProposalStatus.approved
review_status false = ProposalStatus.rejected

unfoldable pub review_containment :
    (now : ℕ)
    → Caller
    → (proposal_id : ℕ) → (approve : Bool) → (reason : Text) → Action Tables ProposalStatus
review_containment now caller proposal_id approve reason = do
  proposal ← or_raise (← gets (get_proposal proposal_id)) not_found_error
  raise_if (not (is_pending proposal.status)) (traceq_error ErrorCode.proposal_already_reviewed 409)
  ncr ← or_raise (← gets (ncr_of proposal.nonconformance_id)) not_found_error
  let status = review_status approve
  modify (λ db. record db {
    proposals = update (λ p. p.id == proposal.id) (reviewed now caller status reason) db.proposals;
  })
  if approve then save_ncr (record ncr { containment = proposal.containment }) else skip
  write_audit (
      audit caller
        (if approve then AuditAction.containment_approval else AuditAction.containment_rejection)
        AuditOutcome.success AuditTarget.containment_proposal proposal.id)
  commit
  pure status
