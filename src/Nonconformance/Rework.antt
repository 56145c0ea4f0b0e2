-- ===== src/Nonconformance/Rework.antt =====
-- `verify_rework` of backend/app/api/nonconformances.py.
use kosmohack_final.Prelude.{
  ℕ, Text, Option, none, some, List, [], ◌∷◌, Bool, true, false, ◌&&◌, opt_eq, leb, ltb, any,
  select, ◌==◌, if◌then◌else◌,
}
use kosmohack_final.Session.{
  Action, gets, pure, commit, or_raise, ◌>>=◌, ◌>>◌, traceq_error, ErrorCode,
}
use kosmohack_final.Quality.Records.{RunReason, CompletionStatus}
use kosmohack_final.Quality.BirthWindow.{is_trusted, is_good}
use kosmohack_final.Models.Quality.{
  Verdict, Disposition, Containment, ResolutionType, VerificationStatus, Nonconformance,
  ControllerDecision, OperationRun, Observation,
}
use kosmohack_final.Models.Log.{AuditAction, AuditOutcome, AuditTarget}
use kosmohack_final.Nonconformance.Tables.{
  Tables, ncr_or_404, ensure_evidence_integrity, latest_decision, id_of, add_decision, save_ncr,
  write_audit,
}
use kosmohack_final.Nonconformance.Release.{create_result}
use kosmohack_final.Nonconformance.Handlers.{Caller, audit}

pub record ReworkVerificationRequest : Type 0 where
  pub approved : Bool
  pub reason : Text

abbrev pub is_rework_run : RunReason → Bool
is_rework_run RunReason.rework = true
is_rework_run RunReason.production = false

abbrev pub is_completed : Option CompletionStatus → Bool
is_completed none = false
is_completed (some CompletionStatus.completed) = true
is_completed (some CompletionStatus.failed) = false
is_completed (some CompletionStatus.aborted) = false
is_completed (some CompletionStatus.interrupted) = false

-- The condition of the query for the rework run.
abbrev pub is_rework_for : Nonconformance → OperationRun → Bool
is_rework_for ncr run =
    (run.item_id == ncr.item_id)
    && (is_rework_run run.run_reason
        && (opt_eq run.rework_for_nonconformance_id (some ncr.id)
            && is_completed run.completion_status))

-- `order_by(finished_at.desc())`, where a missing time comes first.
abbrev pub finished_before : Option ℕ → Option ℕ → Bool
finished_before none b = false
finished_before (some a) none = true
finished_before (some a) (some b) = ltb a b

pub last_finished : OperationRun → List OperationRun → OperationRun
last_finished best [] = best
last_finished best (run ∷ rest) =
    last_finished (if finished_before best.finished_at run.finished_at then run else best) rest

pub first_of : List OperationRun → Option OperationRun
first_of [] = none
first_of (run ∷ rest) = some (last_finished run rest)

abbrev pub finish_time : Option OperationRun → Option ℕ
finish_time none = none
finish_time (some run) = run.finished_at

-- When the last completed rework of the nonconformance was finished.
unfoldable pub rework_finished : Nonconformance → List OperationRun → Option ℕ
unfolding first_of last_finished
rework_finished ncr runs = finish_time (first_of (select (is_rework_for ncr) runs))

-- The query for a trusted good inspection after the rework.
unfoldable pub has_trusted_good : Text → ℕ → List Observation → Bool
has_trusted_good item_id finished_at observations =
    any
      (λ (o : Observation).
        (o.item_id == item_id)
        && (leb finished_at o.occurred_at
            && (is_good o.inspection_result && is_trusted o.trust_status)))
      observations

abbrev pub verification_decision :
    (new_id user_id : ℕ) → Nonconformance → Bool → Text → Option ℕ → ControllerDecision
verification_decision new_id user_id ncr pass reason previous = record {
  id = new_id;
  nonconformance_id = ncr.id;
  user_id = user_id;
  verdict = Verdict.confirmed;
  disposition = if pass then Disposition.released else Disposition.rework_required;
  containment = if pass then Containment.uncontained else Containment.hold;
  reason = reason;
  analysis_version = ncr.current_analysis_version;
  previous_decision_id = previous;
}

abbrev pub verified : (now decision_id : ℕ) → Nonconformance → Nonconformance
verified now decision_id ncr = record ncr {
  verification_decision_id = some decision_id;
  verification_status = some VerificationStatus.passed;
  resolution_type = some ResolutionType.rework;
  resolved_at = some now;
  disposition = Disposition.released;
  containment = Containment.uncontained;
}

abbrev pub not_verified : (decision_id : ℕ) → Nonconformance → Nonconformance
not_verified decision_id ncr = record ncr {
  verification_decision_id = some decision_id;
  verification_status = some VerificationStatus.failed;
  disposition = Disposition.rework_required;
  containment = Containment.hold;
}

unfoldable pub verify_rework :
    (now new_id : ℕ)
    → Caller
    → (ncr_id : ℕ) → ReworkVerificationRequest
    → Action Tables (Option Text)
verify_rework now new_id caller ncr_id body = do
  ncr ← ncr_or_404 ncr_id
  ensure_evidence_integrity ncr.item_id
  found ← gets (λ db. rework_finished ncr db.operation_runs)
  finished_at ← or_raise found (traceq_error ErrorCode.rework_not_completed 409)
  good ← gets (λ db. has_trusted_good ncr.item_id finished_at db.observations)
  let pass = body.approved && good
  latest ← gets (λ db. latest_decision ncr.id db.decisions)
  let decision = verification_decision new_id caller.user_id ncr pass body.reason (id_of latest)
  add_decision decision
  message_id ←
      if pass
      then (do
        save_ncr (verified now new_id ncr)
        id ← create_result now (verified now new_id ncr) decision
        pure (some id))
      else (do save_ncr (not_verified new_id ncr); pure none)
  write_audit (
      audit caller AuditAction.rework_verification
        (if pass then AuditOutcome.passed else AuditOutcome.failed) AuditTarget.nonconformance
        ncr.id)
  commit
  pure message_id
