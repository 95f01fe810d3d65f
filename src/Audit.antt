-- ===== src/Audit.antt =====
-- The audit trail (app/audit).
pub mod Records
pub mod Service
