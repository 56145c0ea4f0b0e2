-- ===== src/Nonconformance/Tables.antt =====
-- The tables that the handlers of backend/app/api/nonconformances.py touch, and their queries.
use kosmohack_final.Prelude.{
  ℕ, Text, Option, none, some, List, [], ◌∷◌, ◌++◌, Bool, true, false, ◌&&◌, opt_eq, any, find,
  update, ◌==◌, if◌then◌else◌,
}
use kosmohack_final.Session.{
  Action, gets, modify, or_raise, raise_if, ◌>>=◌, not_found_error, traceq_error, ErrorCode,
}
use kosmohack_final.Models.Quality.{
  Item, Nonconformance, ControllerDecision, DefectOccurrence, OperationRun, Observation,
  ContainmentProposal, InvestigationNote,
}
use kosmohack_final.Models.Delivery.{QualityResult, OutboxMessage}
use kosmohack_final.Models.Log.{
  RawEvent, IntegrityStreamState, StreamStatus, integrity_failed, stream_ok, AuditEntry,
}

pub record Tables : Type 0 where
  pub nonconformances : List Nonconformance
  pub decisions : List ControllerDecision
  pub items : List Item
  pub occurrences : List DefectOccurrence
  pub operation_runs : List OperationRun
  pub observations : List Observation
  pub proposals : List ContainmentProposal
  pub notes : List InvestigationNote
  pub quality_results : List QualityResult
  pub outbox : List OutboxMessage
  pub raw_events : List RawEvent
  pub streams : List IntegrityStreamState
  pub audits : List AuditEntry

abbrev pub get_ncr : ℕ → Tables → Option Nonconformance
get_ncr id db = find (λ r. r.id == id) db.nonconformances

-- `_ncr_or_404`
abbrev pub ncr_or_404 : ℕ → Action Tables Nonconformance
ncr_or_404 id = do or_raise (← gets (get_ncr id)) not_found_error

abbrev pub is_failed : StreamStatus → Bool
is_failed integrity_failed = true
is_failed stream_ok = false

-- The join of `_ensure_evidence_integrity`: an event of the item lies in a failed stream.
unfoldable pub has_failed_evidence : Text → Tables → Bool
has_failed_evidence item_id db =
    any
      (λ (raw : RawEvent).
        opt_eq raw.item_id (some item_id)
        && any
            (λ (s : IntegrityStreamState).
              (s.stream_id == raw.integrity_stream_id) && is_failed s.status)
            db.streams)
      db.raw_events

abbrev pub ensure_evidence_integrity : Text → Action Tables (Unit {0})
ensure_evidence_integrity item_id = do
  raise_if (← gets (has_failed_evidence item_id))
      (traceq_error ErrorCode.evidence_integrity_failed 409)

-- Rows are appended in the order of their creation, so the latest is the last that matches.
unfoldable pub latest_decision : ℕ → List ControllerDecision → Option ControllerDecision
latest_decision id [] = none
latest_decision id (d ∷ ds) = elim (latest_decision id ds) [
  | some later ↦ some later
  | none ↦ if d.nonconformance_id == id then some d else none
]

abbrev pub id_of : Option ControllerDecision → Option ℕ
id_of none = none
id_of (some d) = some d.id

abbrev pub add_decision : ControllerDecision → Action Tables (Unit {0})
add_decision d = modify (λ db. record db { decisions = db.decisions ++ d ∷ [] })

-- The flush of an object whose attributes were assigned.
abbrev pub save_ncr : Nonconformance → Action Tables (Unit {0})
save_ncr ncr = modify (λ db. record db {
  nonconformances = update (λ r. r.id == ncr.id) (λ _. ncr) db.nonconformances;
})

-- `write_audit`: one row, written in the transaction of the request.
abbrev pub write_audit : AuditEntry → Action Tables (Unit {0})
write_audit entry = modify (λ db. record db { audits = db.audits ++ entry ∷ [] })
