-- ===== src/Routes.antt =====
-- The routes of the production: backend/app/domain/routes.py and backend/app/api/routes.py.
pub mod Steps
pub mod Revisions
