-- ===== src/Nonconformance/Exports.antt =====
-- Every exported result rests on a decision of a controller.
use kosmohack_final.Nonconformance.Backing.{
  either-IsBacked, Extends-IsBacked, same-IsBacked, subst₃, Extends, IsBacked,
}
use kosmohack_final.Nonconformance.Rework.{
  verification_decision, verified, has_trusted_good, rework_finished, ReworkVerificationRequest,
  verify_rework,
}
use kosmohack_final.Nonconformance.Containment.{
  review_containment, inspection_decision, propose_containment, add_investigation_note,
  request_inspection,
}
use kosmohack_final.Prelude.{
  none, false, Text, Option-cases, ℕ, ◌≡◌, sym, ◌⊎◌, inl, inr, some, [], ◌∷◌, ◌++◌, true, arith,
  ◌&&◌,
}
use kosmohack_final.Session.{Session, request}
use kosmohack_final.Models.Quality.{Containment, Disposition, Nonconformance, ControllerDecision}
use kosmohack_final.Nonconformance.Tables.{Tables, get_ncr, latest_decision, id_of}
use kosmohack_final.Nonconformance.Release.{
  create_result, is_final, is_exportable, result_of, message_of,
}
use kosmohack_final.Nonconformance.Handlers.{
  FinalVerdict, Caller, DecisionRequest, decide_nonconformance, decision_of, decided,
  review_nonconformance,
}
use kosmohack_final.Nonconformance.Atomicity.{
  create_result-committed, Request, review, decide, verify, inspect, note, propose, assess, serve,
}

create_result-effect :
    (now : ℕ) (ncr : Nonconformance) (d : ControllerDecision) (s : Session Tables)
    → let t = (create_result now ncr d s).1.current in
      (t.decisions ≡ s.current.decisions)
      × (((t.quality_results ≡ s.current.quality_results) × (t.outbox ≡ s.current.outbox))
          ⊎ ((is_final d.verdict ≡ true)
              × (is_exportable d.disposition ≡ true)
              × (t.quality_results ≡ s.current.quality_results ++ result_of now ncr d ∷ [])
              × (t.outbox ≡ s.current.outbox ++ message_of now ncr d ∷ [])))
unfolding create_result
create_result-effect now ncr d s = ground arith

decide-Extends :
    (now new_id : ℕ) (c : Caller) (id : ℕ) (body : DecisionRequest) (db : Tables)
    (ncr : Nonconformance)
    → get_ncr id db ≡ some ncr
    → let db' = (request (decide_nonconformance now new_id c id body) db).1 in
      (db' ≡ db)
      ⊎ Extends now
          (decided body ncr)
          (decision_of new_id c ncr body (id_of (latest_decision ncr.id db.decisions)))
          db
          db'
unfolding decide_nonconformance
decide-Extends now new_id c id body db ncr e =
    grind (arith, create_result-effect, create_result-committed)

verify-Extends :
    (now new_id : ℕ) (c : Caller) (id : ℕ) (body : ReworkVerificationRequest) (db : Tables)
    (ncr : Nonconformance) (finished_at : ℕ)
    → get_ncr id db ≡ some ncr
    → rework_finished ncr db.operation_runs ≡ some finished_at
    → let pass = body.approved && has_trusted_good ncr.item_id finished_at db.observations in
      let db' = (request (verify_rework now new_id c id body) db).1 in
      (db' ≡ db)
      ⊎ Extends now
          (verified now new_id ncr)
          (verification_decision new_id c.user_id ncr pass body.reason
            (id_of (latest_decision ncr.id db.decisions)))
          db
          db'
unfolding verify_rework
verify-Extends now new_id c id body db ncr finished_at e f =
    grind (arith, create_result-effect, create_result-committed)

-- The same tables with one more decision, or as before.
inspect-effect :
    (new_id : ℕ) (c : Caller) (id : ℕ) (reason : Text) (db : Tables) (ncr : Nonconformance)
    → get_ncr id db ≡ some ncr
    → Extends 0 ncr
        (inspection_decision new_id c ncr reason (id_of (latest_decision ncr.id db.decisions)))
        db
        (request (request_inspection new_id c id reason) db).1
unfolding request_inspection
inspect-effect new_id c id reason db ncr e = ground arith

abbrev IsOther : Request → Type 0
IsOther (decide _ _) = ⊥
IsOther (verify _ _) = ⊥
IsOther (inspect _ _) = ⊥
IsOther (review _ _) = Unit
IsOther (note _ _) = Unit
IsOther (propose _ _ _) = Unit
IsOther (assess _ _ _) = Unit

-- No request touches results, messages or decisions but `decide`, `verify` and `inspect`.
untouched :
    (now new_id : ℕ) (c : Caller) (r : Request) (db : Tables)
    → IsOther r
    → let db' = (serve now new_id c r db).1 in
      (db'.decisions ≡ db.decisions)
      × (db'.quality_results ≡ db.quality_results)
      × (db'.outbox ≡ db.outbox)
unfolding serve review_nonconformance add_investigation_note propose_containment review_containment
untouched now new_id c (review id v) db o = ground arith
untouched now new_id c (note id b) db o = ground arith
untouched now new_id c (propose id p r) db o = ground arith
untouched now new_id c (assess id a r) db o = ground arith
untouched now new_id c (decide id b) db o = absurd o
untouched now new_id c (verify id b) db o = absurd o
untouched now new_id c (inspect id b) db o = absurd o

other-IsBacked :
    (now new_id : ℕ) (c : Caller) (r : Request) (db : Tables)
    → IsOther r
    → IsBacked db
    → IsBacked (serve now new_id c r db).1
other-IsBacked now new_id c r db o h =
    let e = untouched now new_id c r db o in subst₃ (sym e.0) (sym e.1) (sym e.2) h

abbrev any_check : ReworkVerificationRequest
any_check = record { approved = false; reason = 0 }

abbrev any_body : DecisionRequest
any_body = record {
  verdict = FinalVerdict.confirmed;
  disposition = Disposition.in_process;
  containment = Containment.uncontained;
  reason = 0;
}

-- Without the nonconformance the request changes nothing.
missing_changes_nothing :
    (now new_id : ℕ) (c : Caller) (id : ℕ) (db : Tables) (body : DecisionRequest)
    (check : ReworkVerificationRequest) (reason : Text)
    → get_ncr id db ≡ none
    → ((request (decide_nonconformance now new_id c id body) db).1 ≡ db)
      × ((request (verify_rework now new_id c id check) db).1 ≡ db)
      × ((request (request_inspection new_id c id reason) db).1 ≡ db)
unfolding decide_nonconformance verify_rework request_inspection
missing_changes_nothing now new_id c id db body check reason e =
    (ground arith, ground arith, ground arith)

no_rework_changes_nothing :
    (now new_id : ℕ) (c : Caller) (id : ℕ) (db : Tables) (check : ReworkVerificationRequest)
    (ncr : Nonconformance)
    → get_ncr id db ≡ some ncr
    → rework_finished ncr db.operation_runs ≡ none
    → (request (verify_rework now new_id c id check) db).1 ≡ db
unfolding verify_rework
no_rework_changes_nothing now new_id c id db check ncr e f = ground arith

decide-IsBacked :
    (now new_id : ℕ) (c : Caller) (id : ℕ) (body : DecisionRequest) (db : Tables)
    → IsBacked db
    → IsBacked (request (decide_nonconformance now new_id c id body) db).1
decide-IsBacked now new_id c id body db h = elim (Option-cases (get_ncr id db)) [
  | inl e ↦ same-IsBacked db _ (missing_changes_nothing now new_id c id db body any_check 0 e).0 h
  | inr (ncr, e) ↦
      either-IsBacked now (decided body ncr) _ db _ (decide-Extends now new_id c id body db ncr e) h
]

verify-IsBacked :
    (now new_id : ℕ) (c : Caller) (id : ℕ) (check : ReworkVerificationRequest) (db : Tables)
    → IsBacked db
    → IsBacked (request (verify_rework now new_id c id check) db).1
verify-IsBacked now new_id c id check db h = elim (Option-cases (get_ncr id db)) [
  | inl e ↦ same-IsBacked db _ (missing_changes_nothing now new_id c id db any_body check 0 e).1 h
  | inr (ncr, e) ↦ elim (Option-cases (rework_finished ncr db.operation_runs)) [
    | inl f ↦ same-IsBacked db _ (no_rework_changes_nothing now new_id c id db check ncr e f) h
    | inr (t, f) ↦
        either-IsBacked now (verified now new_id ncr) _ db _
          (verify-Extends now new_id c id check db ncr t e f) h
  ]
]

inspect-IsBacked :
    (new_id : ℕ) (c : Caller) (id : ℕ) (reason : Text) (db : Tables)
    → IsBacked db
    → IsBacked (request (request_inspection new_id c id reason) db).1
inspect-IsBacked new_id c id reason db h = elim (Option-cases (get_ncr id db)) [
  | inl e ↦
      same-IsBacked db _ (missing_changes_nothing 0 new_id c id db any_body any_check reason e).2 h
  | inr (ncr, e) ↦
      Extends-IsBacked 0 ncr _ db (request (request_inspection new_id c id reason) db).1
        (inspect-effect new_id c id reason db ncr e) h
]

-- Any request, refused or not, keeps the export record: every quality result is of a decision in
-- the table with a controller's verdict and an exportable disposition, and every message of the
-- outbox carries the identity and the payload of a quality result.
pub serve-IsBacked :
    (now new_id : ℕ) (c : Caller) (r : Request) (db : Tables)
    → IsBacked db
    → IsBacked (serve now new_id c r db).1
unfolding serve
serve-IsBacked now new_id c (decide id body) db h = decide-IsBacked now new_id c id body db h
serve-IsBacked now new_id c (verify id check) db h = verify-IsBacked now new_id c id check db h
serve-IsBacked now new_id c (inspect id r) db h = inspect-IsBacked new_id c id r db h
serve-IsBacked now new_id c (review id v) db h = other-IsBacked now new_id c (review id v) db tt h
serve-IsBacked now new_id c (note id b) db h = other-IsBacked now new_id c (note id b) db tt h
serve-IsBacked now new_id c (propose id p r) db h =
    other-IsBacked now new_id c (propose id p r) db tt h
serve-IsBacked now new_id c (assess id a r) db h =
    other-IsBacked now new_id c (assess id a r) db tt h
