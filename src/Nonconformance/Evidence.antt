-- ===== src/Nonconformance/Evidence.antt =====
-- When the handlers of backend/app/api/nonconformances.py refuse for evidence that failed.
use kosmohack_final.Models.Log.{IntegrityStreamState, RawEvent, StreamStatus}
use kosmohack_final.Prelude.{
  opt_eq, ==_refl, opt_eq_refl, opt_eq→eq, [], ◌∷◌, Bool-cases, Exists, ◌↔◌, any, inr, refl, inl,
  ◌&&◌, ◌==◌, Text, Bool, List, ℕ, ◌≡◌, Option, some, true, arith,
}
use kosmohack_final.Session.{TraceqError, traceq_error, ErrorCode}
use kosmohack_final.Models.Quality.{Nonconformance}
use kosmohack_final.Nonconformance.Tables.{is_failed, Tables, get_ncr, has_failed_evidence}
use kosmohack_final.Nonconformance.Release.{create_result}
use kosmohack_final.Nonconformance.Handlers.{
  Caller, ReviewVerdict, review_nonconformance, DecisionRequest, valid_combination,
  decide_nonconformance,
}
use kosmohack_final.Nonconformance.Rework.{ReworkVerificationRequest, verify_rework}
use kosmohack_final.Nonconformance.Atomicity.{serve, review, decide, verify}

-- A test that says what a predicate says is passed by some row exactly when the predicate holds of one.
any→Exists :
    {A : Type 0} (P : A → Type 0) (p : A → Bool)
    → ((x : A) → p x ≡ true → P x)
    → (xs : List A) → any p xs ≡ true
    → Exists P xs
any→Exists P p f [] h = absurd (ground arith)
any→Exists P p f (x ∷ xs) h = elim (Bool-cases (p x)) [
  | inl here ↦ inl (f x here)
  | inr not_here ↦ inr (any→Exists P p f xs (ground arith))
]

Exists→any :
    {A : Type 0} (P : A → Type 0) (p : A → Bool)
    → ((x : A) → P x → p x ≡ true)
    → (xs : List A) → Exists P xs
    → any p xs ≡ true
Exists→any P p f [] h = absurd h
Exists→any P p f (x ∷ xs) (inl h) = let here = f x h in ground arith
Exists→any P p f (x ∷ xs) (inr h) = let there = Exists→any P p f xs h in ground arith

is_failed→eq : (s : StreamStatus) → is_failed s ≡ true → s ≡ StreamStatus.integrity_failed
is_failed→eq StreamStatus.integrity_failed h = refl
is_failed→eq StreamStatus.stream_ok h = absurd (ground arith)

-- The stream of a stored event failed, as the join tests it and as a predicate.
abbrev is_failed_stream : RawEvent → IntegrityStreamState → Bool
is_failed_stream raw s = (s.stream_id == raw.integrity_stream_id) && is_failed s.status

abbrev pub IsFailedStream : RawEvent → IntegrityStreamState → Type 0
IsFailedStream raw s =
    (s.stream_id ≡ raw.integrity_stream_id) × (s.status ≡ StreamStatus.integrity_failed)

IsFailedStream-iff :
    (raw : RawEvent) (s : IntegrityStreamState)
    → (is_failed_stream raw s ≡ true) ↔ IsFailedStream raw s
IsFailedStream-iff raw s = (
  (λ h. (ground arith, is_failed→eq s.status (ground arith))),
  (λ h. ground (arith, h.0, h.1, ==_refl raw.integrity_stream_id)),
)

-- Some stored event of the item lies in a stream whose verification failed.
abbrev pub HasFailedEvidence : Text → Tables → Type 0
HasFailedEvidence item_id db =
    Exists
      (λ (raw : RawEvent). (raw.item_id ≡ some item_id) × Exists (IsFailedStream raw) db.streams)
      db.raw_events

failed_event_iff :
    (item_id : Text) (db : Tables) (raw : RawEvent)
    → ((opt_eq raw.item_id (some item_id) && any (is_failed_stream raw) db.streams) ≡ true)
      ↔ ((raw.item_id ≡ some item_id) × Exists (IsFailedStream raw) db.streams)
failed_event_iff item_id db raw =
    let to =
      any→Exists (IsFailedStream raw) (is_failed_stream raw) (λ s. (IsFailedStream-iff raw s).0)
        db.streams in
    let from =
      Exists→any (IsFailedStream raw) (is_failed_stream raw) (λ s. (IsFailedStream-iff raw s).1)
        db.streams in
    (
      (λ h. (opt_eq→eq raw.item_id (some item_id) (ground arith), to (ground arith))),
      (λ h. let failed = from h.1 in ground (arith, h.0, opt_eq_refl (some item_id))),
    )

has_failed_evidence_iff :
    (item_id : Text) (db : Tables)
    → (has_failed_evidence item_id db ≡ true) ↔ HasFailedEvidence item_id db
unfolding has_failed_evidence
has_failed_evidence_iff item_id db = (
  any→Exists _ _ (λ raw. (failed_event_iff item_id db raw).0) db.raw_events,
  Exists→any _ _ (λ raw. (failed_event_iff item_id db raw).1) db.raw_events,
)

abbrev pub integrity_error : Option TraceqError
integrity_error = some (traceq_error ErrorCode.evidence_integrity_failed 409)

-- A review, a decision with a valid combination, and a verification of a rework of a nonconformance
-- that is there are answered by EVIDENCE_INTEGRITY_FAILED exactly when some stored event of its item
-- lies in a stream that failed verification.
pub failed_evidence_iff :
    (now new_id : ℕ) (c : Caller) (id : ℕ) (v : ReviewVerdict) (body : DecisionRequest)
    (check : ReworkVerificationRequest) (db : Tables) (ncr : Nonconformance)
    → get_ncr id db ≡ some ncr
    → valid_combination body ≡ true
    → (((serve now new_id c (review id v) db).0 ≡ integrity_error)
        ↔ HasFailedEvidence ncr.item_id db)
      × (((serve now new_id c (decide id body) db).0 ≡ integrity_error)
          ↔ HasFailedEvidence ncr.item_id db)
      × (((serve now new_id c (verify id check) db).0 ≡ integrity_error)
          ↔ HasFailedEvidence ncr.item_id db)
unfolding serve review_nonconformance decide_nonconformance verify_rework create_result
failed_evidence_iff now new_id c id v body check db ncr found valid =
    let e = has_failed_evidence_iff ncr.item_id db in
    elim (Bool-cases (has_failed_evidence ncr.item_id db)) [
      | inl bad ↦ (
        ((λ _. e.0 bad), (λ _. ground arith)),
        ((λ _. e.0 bad), (λ _. ground arith)),
        ((λ _. e.0 bad), (λ _. ground arith)),
      )
      | inr intact ↦ (
        ((λ h. absurd (ground arith)), (λ h. absurd (ground (arith, e.1 h)))),
        ((λ h. absurd (ground arith)), (λ h. absurd (ground (arith, e.1 h)))),
        ((λ h. absurd (ground arith)), (λ h. absurd (ground (arith, e.1 h)))),
      )
    ]
