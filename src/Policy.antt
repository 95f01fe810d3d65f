-- ===== src/Policy.antt =====
-- The policy snapshot that one request is decided by (app/policy/models.py), and the service
-- that resolves and caches it (app/policy/service.py).
pub mod Snapshot
pub mod Service
