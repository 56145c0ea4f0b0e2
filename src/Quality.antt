-- ===== src/Quality.antt =====
-- The quality rules: backend/app/quality/.
pub mod Records
pub mod Trust
pub mod BirthWindow
pub mod Occurrence
