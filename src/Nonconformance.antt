-- ===== src/Nonconformance.antt =====
-- The life of a nonconformance: backend/app/api/nonconformances.py, with the release policy of
-- backend/app/quality/release.py in the child `Release`. A handler is an action on the tables that
-- it touches; `request` runs it as one request. The identity of a new row and the time of the
-- request are arguments, and the caller's permission is checked before (Security.Access). Lengths of texts
-- are checked by pydantic and are not modelled; queries that only read are left out.
pub mod Tables
pub mod Release
pub mod Handlers
pub mod Rework
pub mod Containment
pub mod Atomicity
pub mod Gates
pub mod Evidence
pub mod Backing
pub mod Exports
