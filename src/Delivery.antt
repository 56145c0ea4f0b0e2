-- ===== src/Delivery.antt =====
-- The way of a quality result to the external system: the outbox worker (worker/main.py) and the
-- ERP emulator at the other end (erp_emulator/app/main.py).
pub mod Emulator
pub mod Worker
