-- ===== src/Security.antt =====
-- The protection of the raw log and of the interface: backend/app/security/.
pub mod Accounts
pub mod Framing
pub mod Integrity
pub mod Auth
pub mod Access
