-- ===== src/Tests.antt =====
-- The theorems at concrete inputs.
mod Quality
mod Delivery
mod Routes
mod Nonconformance
mod Access
mod RawLog
mod Ingestion
mod Projection
mod Admission
