-- ===== src/Nonconformance/Atomicity.antt =====
-- A request of backend/app/api/nonconformances.py that is refused leaves no trace.
use kosmohack_final.Prelude.{ℕ, Text, ◌≡◌, Option, none, some, Bool, arith}
use kosmohack_final.Session.{Result, ok, err, TraceqError, request, Session}
use kosmohack_final.Models.Quality.{Nonconformance, ControllerDecision}
use kosmohack_final.Nonconformance.Tables.{Tables}
use kosmohack_final.Nonconformance.Release.{create_result}
use kosmohack_final.Nonconformance.Handlers.{
  Caller, ReviewVerdict, review_nonconformance, DecisionRequest, decide_nonconformance,
}
use kosmohack_final.Nonconformance.Rework.{ReworkVerificationRequest, verify_rework}
use kosmohack_final.Nonconformance.Containment.{
  request_inspection, add_investigation_note, ProposedContainment, propose_containment,
  review_containment,
}

-- The requests of the router that write.
pub data Request : Type 0 where
  review : (ncr_id : ℕ) → ReviewVerdict → Request
  decide : (ncr_id : ℕ) → DecisionRequest → Request
  verify : (ncr_id : ℕ) → ReworkVerificationRequest → Request
  inspect : (ncr_id : ℕ) → (reason : Text) → Request
  note : (ncr_id : ℕ) → (body : Text) → Request
  propose : (ncr_id : ℕ) → ProposedContainment → (rationale : Text) → Request
  assess : (proposal_id : ℕ) → (approve : Bool) → (reason : Text) → Request

abbrev pub error_of : {A : Type 0} → Result A → Option TraceqError
error_of (ok _) = none
error_of (err e) = some e

abbrev pub finish : {A : Type 0} → Result A × Tables → Option TraceqError × Tables
finish (r, db) = (error_of r, db)

-- One request at time `now`, with the identity for a new row: its error, if any, and the database
-- after it.
unfoldable pub serve : (now new_id : ℕ) → Caller → Request → Tables → Option TraceqError × Tables
serve now new_id c (review id v) db = finish (request (review_nonconformance c id v) db)
serve now new_id c (decide id body) db =
    finish (request (decide_nonconformance now new_id c id body) db)
serve now new_id c (verify id body) db = finish (request (verify_rework now new_id c id body) db)
serve now new_id c (inspect id r) db = finish (request (request_inspection new_id c id r) db)
serve now new_id c (note id b) db = finish (request (add_investigation_note new_id c id b) db)
serve now new_id c (propose id p r) db = finish (request (propose_containment new_id c id p r) db)
serve now new_id c (assess id a r) db = finish (request (review_containment now c id a r) db)

pub create_result-committed :
    (now : ℕ) (ncr : Nonconformance) (d : ControllerDecision) (s : Session Tables)
    → (create_result now ncr d s).1.committed ≡ s.committed
unfolding create_result
create_result-committed now ncr d s = ground arith

decide-refused :
    (now new_id : ℕ) (c : Caller) (id : ℕ) (body : DecisionRequest) (db : Tables) (e : TraceqError)
    → (request (decide_nonconformance now new_id c id body) db).0 ≡ err e
    → (request (decide_nonconformance now new_id c id body) db).1 ≡ db
unfolding decide_nonconformance
decide-refused now new_id c id body db e h = grind (arith, create_result-committed)

verify-refused :
    (now new_id : ℕ) (c : Caller) (id : ℕ) (body : ReworkVerificationRequest) (db : Tables)
    (e : TraceqError)
    → (request (verify_rework now new_id c id body) db).0 ≡ err e
    → (request (verify_rework now new_id c id body) db).1 ≡ db
unfolding verify_rework
verify-refused now new_id c id body db e h = grind (arith, create_result-committed)

-- Whatever the request, when it ends in an error the database is what it was before.
pub refused_changes_nothing :
    (now new_id : ℕ) (c : Caller) (r : Request) (db : Tables) (e : TraceqError)
    → (serve now new_id c r db).0 ≡ some e
    → (serve now new_id c r db).1 ≡ db
unfolding serve review_nonconformance request_inspection add_investigation_note propose_containment
    review_containment
refused_changes_nothing now new_id c (review id v) db e h = ground arith
refused_changes_nothing now new_id c (decide id body) db e h =
    ground (arith, decide-refused now new_id c id body db e)
refused_changes_nothing now new_id c (verify id body) db e h =
    ground (arith, verify-refused now new_id c id body db e)
refused_changes_nothing now new_id c _ db e h = ground arith
