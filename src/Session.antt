-- ===== src/Session.antt =====
-- A database session of SQLAlchemy over tables `D`: what is committed, and what the open
-- transaction sees. backend/app/persistence/database.py gives each request its own session and
-- closes it at the end, which drops what was not committed. backend/app/errors.py is the error.
use kosmohack_final.Prelude.{ℕ, Bool, true, false, Option, none, some}

-- The `code` of a `TraceQError`.
pub data ErrorCode : Type 0 where
  internal_error : ErrorCode
  not_found forbidden invalid_route validation_error : ErrorCode
  action_not_authorized rework_verification_required : ErrorCode
  evidence_integrity_failed rework_not_completed proposal_already_reviewed : ErrorCode
  route_code_exists : ErrorCode
  invalid_event unsupported_event_type unsupported_schema_version : ErrorCode
  event_schema_validation_error source_auth_required source_auth_failed : ErrorCode
  invalid_source_credentials replay_attempt key_unavailable : ErrorCode
  source_identity_mismatch event_type_not_allowed source_scope_violation : ErrorCode
  event_id_conflict ingest_concurrency_conflict : ErrorCode
  account_temporarily_locked invalid_credentials invalid_refresh_token : ErrorCode
  authentication_required invalid_access_token session_revoked fresh_auth_required : ErrorCode

-- The message is not modelled.
pub record TraceqError : Type 0 where
  pub code : ErrorCode
  pub status_code : ℕ

abbrev pub traceq_error : ErrorCode → ℕ → TraceqError
traceq_error code status_code = record { code = code; status_code = status_code }

-- `NotFoundError` and `ForbiddenError`
abbrev pub not_found_error : TraceqError
not_found_error = traceq_error ErrorCode.not_found 404

abbrev pub forbidden_error : TraceqError
forbidden_error = traceq_error ErrorCode.forbidden 403

pub data Result (A : Type 0) : Type 0 where
  ok : A → Result A
  err : TraceqError → Result A

pub record Session (D : Type 0) : Type 0 where
  pub committed : D
  pub current : D

-- What an exception leaves of the session is kept, since handlers may catch it.
abbrev pub Action : Type 0 → Type 0 → Type 0
Action D A = Session D → Result A × Session D

module _ {D A : Type 0} where
  abbrev pub pure : A → Action D A
  pure a s = (ok a, s)

  abbrev pub raise : TraceqError → Action D A
  raise e s = (err e, s)

  abbrev pub gets : (D → A) → Action D A
  gets f s = (ok (f s.current), s)

  abbrev pub or_raise : Option A → TraceqError → Action D A
  or_raise none e = raise e
  or_raise (some a) e = pure a

  abbrev pub lift : Result A → Action D A
  lift r s = (r, s)

  -- `try: m except Exception as e: handler e`
  abbrev pub or_else : Action D A → (TraceqError → Action D A) → Action D A
  or_else m handler s = let (r, t) = m s in elim r [ ok a ↦ (ok a, t) | err e ↦ handler e t ]

  -- A request on a fresh session: what it returns, and the database that it leaves.
  abbrev pub request : Action D A → D → Result A × D
  request m db = let (r, s) = m (record { committed = db; current = db }) in (r, s.committed)

module _ {D A B : Type 0} where
  infixl 5 ◌>>=◌ ◌>>◌
  abbrev pub ◌>>=◌ : Action D A → (A → Action D B) → Action D B
  ◌>>=◌ m f s = let (r, t) = m s in elim r [ ok a ↦ f a t | err e ↦ (err e, t) ]

  abbrev pub ◌>>◌ : Action D A → Action D B → Action D B
  m >> k = m >>= λ _. k

module _ {D : Type 0} where
  -- A session on which a request begins.
  abbrev pub fresh : D → Session D
  fresh db = record { committed = db; current = db }

  abbrev pub raise_if : Bool → TraceqError → Action D (Unit {0})
  raise_if true e = raise e
  raise_if false e = pure tt

  abbrev pub modify : (D → D) → Action D (Unit {0})
  modify f s = (ok tt, record s { current = f s.current })

  abbrev pub commit : Action D (Unit {0})
  commit s = (ok tt, record s { committed = s.current })

  abbrev pub rollback : Action D (Unit {0})
  rollback s = (ok tt, record s { current = s.committed })

  abbrev pub skip : Action D (Unit {0})
  skip s = (ok tt, s)
