-- ===== src/Nonconformance/Handlers.antt =====
-- The handlers of backend/app/api/nonconformances.py that write.
use kosmohack_final.Prelude.{
  ℕ, Text, Option, none, some, Bool, true, false, not, ◌&&◌, if◌then◌else◌,
}
use kosmohack_final.Session.{
  Action, gets, pure, modify, commit, raise_if, ◌>>=◌, ◌>>◌, traceq_error, ErrorCode,
}
use kosmohack_final.Models.Quality.{
  Verdict, Disposition, Containment, ResolutionType, VerificationStatus, Nonconformance,
  ControllerDecision,
}
use kosmohack_final.Models.Log.{AuditEntry, AuditAction, AuditOutcome, AuditTarget}
use kosmohack_final.Nonconformance.Tables.{
  Tables, ncr_or_404, ensure_evidence_integrity, latest_decision, id_of, add_decision, save_ncr,
  write_audit,
}
use kosmohack_final.Nonconformance.Release.{is_exportable, create_result, set_item_status}

-- Who asks, and in which request.
pub record Caller : Type 0 where
  pub user_id : ℕ
  pub session_id : ℕ
  pub request_id : Text

abbrev pub audit :
    Caller → (action : AuditAction) → AuditOutcome → AuditTarget → (target_id : ℕ) → AuditEntry
audit caller action outcome target_type target_id = record {
  action = action;
  outcome = outcome;
  actor_user_id = some caller.user_id;
  session_id = some caller.session_id;
  target_type = some target_type;
  target_id = some target_id;
  request_id = some caller.request_id;
}

pub data ReviewVerdict : Type 0 where
  pending_review needs_extra_check : ReviewVerdict

abbrev pub verdict_of : ReviewVerdict → Verdict
verdict_of ReviewVerdict.pending_review = Verdict.pending_review
verdict_of ReviewVerdict.needs_extra_check = Verdict.needs_extra_check

unfoldable pub review_nonconformance : Caller → (ncr_id : ℕ) → ReviewVerdict → Action Tables Verdict
review_nonconformance caller ncr_id verdict = do
  ncr ← ncr_or_404 ncr_id
  ensure_evidence_integrity ncr.item_id
  save_ncr (record ncr { verdict = verdict_of verdict })
  write_audit (
      audit caller AuditAction.nonconformance_review AuditOutcome.success AuditTarget.nonconformance
        ncr.id)
  commit
  pure (verdict_of verdict)

pub data FinalVerdict : Type 0 where
  confirmed rejected : FinalVerdict

abbrev pub final_verdict : FinalVerdict → Verdict
final_verdict FinalVerdict.confirmed = Verdict.confirmed
final_verdict FinalVerdict.rejected = Verdict.rejected

pub record DecisionRequest : Type 0 where
  pub verdict : FinalVerdict
  pub disposition : Disposition
  pub containment : Containment
  pub reason : Text

abbrev pub is_rework_required : Disposition → Bool
is_rework_required Disposition.rework_required = true
is_rework_required Disposition.in_process = false
is_rework_required Disposition.released = false
is_rework_required Disposition.scrapped = false
is_rework_required Disposition.use_as_is = false

abbrev pub is_rejection : FinalVerdict → Bool
is_rejection FinalVerdict.rejected = true
is_rejection FinalVerdict.confirmed = false

-- `DecisionRequest.valid_combination`; a body that fails it is answered by 422.
abbrev pub valid_combination : DecisionRequest → Bool
valid_combination body = not (is_rejection body.verdict && is_rework_required body.disposition)

-- The attributes of the nonconformance that `decide_nonconformance` assigns.
abbrev pub decided : DecisionRequest → Nonconformance → Nonconformance
decided body ncr = record ncr {
  verdict = final_verdict body.verdict;
  disposition = body.disposition;
  containment = body.containment;
  resolution_type =
      if is_rework_required body.disposition
      then some ResolutionType.rework
      else ncr.resolution_type;
  verification_status =
      if is_rework_required body.disposition
      then some VerificationStatus.pending
      else ncr.verification_status;
}

abbrev pub decision_of :
    (new_id : ℕ) → Caller → Nonconformance → DecisionRequest → Option ℕ → ControllerDecision
decision_of new_id caller ncr body previous = record {
  id = new_id;
  nonconformance_id = ncr.id;
  user_id = caller.user_id;
  verdict = final_verdict body.verdict;
  disposition = body.disposition;
  containment = body.containment;
  reason = body.reason;
  analysis_version = ncr.current_analysis_version;
  previous_decision_id = previous;
}

unfoldable pub decide_nonconformance :
    (now new_id : ℕ) → Caller → (ncr_id : ℕ) → DecisionRequest → Action Tables (Option Text)
decide_nonconformance now new_id caller ncr_id body = do
  raise_if (not (valid_combination body)) (traceq_error ErrorCode.validation_error 422)
  ncr ← ncr_or_404 ncr_id
  ensure_evidence_integrity ncr.item_id
  latest ← gets (λ db. latest_decision ncr.id db.decisions)
  let decision = decision_of new_id caller ncr body (id_of latest)
  add_decision decision
  save_ncr (decided body ncr)
  modify (set_item_status ncr.item_id body.disposition)
  message_id ←
      if is_exportable body.disposition
      then (do id ← create_result now (decided body ncr) decision; pure (some id))
      else pure none
  write_audit (
      audit caller AuditAction.controller_decision AuditOutcome.success AuditTarget.nonconformance
        ncr.id)
  commit
  pure message_id
