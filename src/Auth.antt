-- ===== src/Auth.antt =====
-- Admission of requests (app/auth).
pub mod RateLimit
