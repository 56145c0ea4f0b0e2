-- ===== src/Nonconformance/Release.antt =====
-- backend/app/quality/release.py: what may be exported, and the only place that exports it.
use kosmohack_final.Prelude.{
  ℕ, suc, Text, Option, none, some, [], ◌∷◌, ◌++◌, Bool, true, false, not, ◌&&◌, ◌||◌, find, update,
  ◌==◌,
}
use kosmohack_final.Session.{
  Action, gets, pure, modify, raise_if, ◌>>=◌, ◌>>◌, traceq_error, ErrorCode,
}
use kosmohack_final.Models.Quality.{
  Verdict, Disposition, ResolutionType, VerificationStatus, Item, Nonconformance,
  ControllerDecision, DefectOccurrence, closed_occurrence,
}
use kosmohack_final.Models.Delivery.{ResultPayload, QualityResult, OutboxMessage, OutboxState}
use kosmohack_final.Nonconformance.Tables.{Tables, save_ncr}

-- The verdicts of a controller.
abbrev pub is_final : Verdict → Bool
is_final Verdict.confirmed = true
is_final Verdict.rejected = true
is_final Verdict.pending_review = false
is_final Verdict.needs_extra_check = false

-- RELEASED, USE_AS_IS, SCRAPPED
abbrev pub is_exportable : Disposition → Bool
is_exportable Disposition.released = true
is_exportable Disposition.use_as_is = true
is_exportable Disposition.scrapped = true
is_exportable Disposition.in_process = false
is_exportable Disposition.rework_required = false

abbrev pub is_rework : Option ResolutionType → Bool
is_rework none = false
is_rework (some ResolutionType.rework) = true

abbrev pub is_passed : Option VerificationStatus → Bool
is_passed none = false
is_passed (some VerificationStatus.passed) = true
is_passed (some VerificationStatus.pending) = false
is_passed (some VerificationStatus.failed) = false

unfoldable pub authorize : Nonconformance → ControllerDecision → Action Tables (Unit {0})
authorize ncr decision = do
  raise_if (not (decision.nonconformance_id == ncr.id) || not (is_final decision.verdict))
      (traceq_error ErrorCode.action_not_authorized 403)
  raise_if (not (is_exportable decision.disposition))
      (traceq_error ErrorCode.action_not_authorized 403)
  raise_if (is_rework ncr.resolution_type && not (is_passed ncr.verification_status))
      (traceq_error ErrorCode.rework_verification_required 409)

-- The text "QR-" followed by the decision's id: one text for each id, and none is empty.
abbrev pub message_id_of : ControllerDecision → Text
message_id_of decision = suc decision.id

-- The destination "erp-emulator".
abbrev pub erp_emulator : Text
erp_emulator = 4

abbrev pub payload_of : ℕ → Nonconformance → ControllerDecision → ResultPayload
payload_of now ncr decision = record {
  message_id = message_id_of decision;
  item_id = ncr.item_id;
  nonconformance_id = ncr.id;
  decision_id = decision.id;
  verdict = decision.verdict;
  disposition = decision.disposition;
  containment = decision.containment;
  decided_at = now;
}

abbrev pub result_of : ℕ → Nonconformance → ControllerDecision → QualityResult
result_of now ncr decision = record {
  message_id = message_id_of decision;
  decision_id = decision.id;
  item_id = ncr.item_id;
  payload = payload_of now ncr decision;
}

abbrev pub message_of : ℕ → Nonconformance → ControllerDecision → OutboxMessage
message_of now ncr decision = record {
  message_id = message_id_of decision;
  destination = erp_emulator;
  payload = payload_of now ncr decision;
  state = OutboxState.pending;
  attempts = 0;
  next_attempt_at = now;
  last_error = none;
  created_at = now;
  delivered_at = none;
}

abbrev pub set_item_status : Text → Disposition → Tables → Tables
set_item_status id status db = record db {
  items = update (λ (i : Item). i.item_id == id) (λ i. record i { status = status }) db.items;
}

abbrev pub as_closed : ℕ → DefectOccurrence → DefectOccurrence
as_closed now o = record o { status = closed_occurrence; closed_at = some now }

abbrev pub close_occurrence : ℕ → ℕ → Tables → Tables
close_occurrence now id db = record db {
  occurrences = update (λ (o : DefectOccurrence). o.id == id) (as_closed now) db.occurrences;
}

-- The part of `create_result` behind the query for an existing result.
pub export : ℕ → Nonconformance → ControllerDecision → Action Tables Text
export now ncr decision = do
  modify (λ db. record db {
    quality_results = db.quality_results ++ result_of now ncr decision ∷ [];
    outbox = db.outbox ++ message_of now ncr decision ∷ [];
  })
  modify (set_item_status ncr.item_id decision.disposition)
  save_ncr (record ncr { closed_at = some now })
  modify (close_occurrence now ncr.occurrence_id)
  pure (message_id_of decision)

-- `create_result`, for the message id that its callers use.
unfoldable pub create_result : ℕ → Nonconformance → ControllerDecision → Action Tables Text
unfolding authorize export
create_result now ncr decision = do
  authorize ncr decision
  existing ←
      gets (λ db. find (λ (q : QualityResult). q.decision_id == decision.id) db.quality_results)
  elim existing [ some result ↦ pure result.message_id | none ↦ export now ncr decision ]
