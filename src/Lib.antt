-- ===== src/Lib.antt =====
-- TRACE-Q: traceability of a production line, the analysis of its defects, and the release of parts.
--
-- Sources send events, which are stored encrypted in a raw log that is chained by MACs; projections
-- are rebuilt from the log; the quality rules judge inspections and bound the time in which a defect
-- was born; controllers decide on nonconformances; what they decide goes through an outbox to an ERP
-- system. This library models the parts below, function by function, and proves what makes them
-- right. A file names its source by the path from the root of the repository.
--
-- The parts and their files:
--   Session: a database session (backend/app/persistence/database.py) as a pair of what is committed
--     and what the transaction sees, with the errors of backend/app/errors.py. An `Action` is a
--     handler, `request` runs it on a session of its own and keeps what it committed.
--   Models: the rows of backend/app/persistence/models.py. Identifiers and texts are numbers (the
--     empty text is 0), instants are numbers of microseconds, byte strings are lists of numbers.
--   Quality: backend/app/quality/trust.py (Trust: `evaluate_trust`, `scope_covers`) and
--     backend/app/quality/birth_window.py (BirthWindow: `calculate_birth_window`), on the values of
--     Records; backend/app/quality/occurrence.py (Occurrence: `can_link_occurrence`). Confidences are
--     only compared, so they are numbers on one scale.
--   Nonconformance: backend/app/api/nonconformances.py and backend/app/quality/release.py. Tables
--     holds the shared queries, Handlers the review and the decision, Rework `verify_rework`,
--     Containment the inspections, notes and proposals, Release `OutboundReleasePolicy`. Atomicity
--     puts the handlers together as `serve`, Gates, Evidence and Exports prove what they keep.
--   Events: the event contract of shared_contracts/generated/events.py (Contract, Schema: the models
--     as rules on JSON values) and backend/app/domain/events.py (`normalize_legacy`,
--     `validate_event`, `data_quality_warnings`). Reading turns a value that meets its model into
--     an `EventEnvelope` and Valid relates the two.
--   Ingestion: backend/app/ingestion/service.py. Sources holds `authenticate_source` with its
--     methods and nonces, Store the part of `ingest_event` from the canonical form of an event on
--     (`store_event`), Projections what it does to projections, Ingest the whole of it with scope
--     checks and rejected attempts. Chains and Verified tie the store to the check of the raw log,
--     Repeats is about duplicates, Starts about items without a projection, Refusals and Nonces
--     about who is let in.
--   Projection: backend/app/projections/rebuild.py. Replay reads an item's events back and sorts
--     them, Conflicts finds readings that oppose each other, Rows replaces the rows that are
--     derived, Analyses writes analysis versions, Defects opens or links occurrences and
--     nonconformances, Rebuild puts them together as `rebuild_item` and recovers projections that
--     are behind. Frame, Plan and Decisions say what a rebuild leaves alone; Ordering, Opposed,
--     Versions, Recovered, Repeated, Reopened (on the lemmas of Links) and Linking hold its
--     properties, Narrowing those of birth windows once conflicts are marked; ReadBack ties it to
--     ingestion.
--   Delivery: worker/main.py (Worker: `process_one`, and `run` as its rounds) and
--     erp_emulator/app/main.py (Emulator: a delayed request is two steps). The worker takes the
--     call of the external system as a function from the payload to its outcome.
--   Routes: backend/app/domain/routes.py (Steps) and the handlers of backend/app/api/routes.py that
--     write (Revisions), with the trigger on route_revisions of the second migration in
--     backend/alembic/versions/.
--   Security: the frame of `compute_integrity_mac` in backend/app/security/crypto.py (Framing),
--     backend/app/security/integrity.py (Integrity), backend/app/api/auth.py (Accounts, Auth) and the
--     checks of backend/app/security/auth.py (Access).
--   Prelude: lists, options and Boolean tests on the native numbers. Tests: the theorems at
--     concrete inputs.
--
-- Code that is not in the repository is a function that the definitions take as an argument: HMAC,
-- Argon2, SHA-256, JWT, UTF-8, AES-GCM, the JSON writer and reader, UUIDs derived from names, what
-- pydantic accepts as a plain field, and the equality of Python values. Records of such functions
-- stand in the files that use them. The time of a request, the identities of new rows and random
-- tokens are arguments, or the next number after those in use. Where the code sorts by a text, the
-- texts are ordered as their numbers are.
--
-- Nothing runs on fuel: each loop is a structural recursion on the rows that it reads; the endless
-- loop of the worker is a list of rounds of any length, and the recovery of projections a loop over
-- the items that were behind when it began.
--
-- Not modelled: the administration and risk handlers, the endpoint that puts ingestion and rebuild
-- together, the branch of `ingest_event` for a commit that another request won, the import of
-- product structures, demonstration data, and the queries that only read; most free-form JSON
-- columns, and lengths of texts in the bodies of requests, which pydantic checks. Row and advisory
-- locks are not modelled: a handler is one step.
pub mod Prelude
pub mod Session
pub mod Quality
pub mod Models
pub mod Nonconformance
pub mod Delivery
pub mod Routes
pub mod Security
pub mod Ingestion
pub mod Tests
pub mod Events
pub mod Projection
