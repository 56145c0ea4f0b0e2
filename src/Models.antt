-- ===== src/Models.antt =====
-- The rows of the tables of backend/app/persistence/models.py. Columns that only the database
-- fills in (`created_at`, `updated_at`) and free-form JSON columns are left out; UUIDs and other
-- identifiers are numbers, instants are microseconds, byte strings are lists of numbers.
pub mod Quality
pub mod Accounts
pub mod Log
pub mod Delivery
pub mod Routing
