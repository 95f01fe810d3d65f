-- ===== src/Domain.antt =====
-- Domain contracts (app/domain/models.py) and the errors that a stage raises.
pub mod Errors
pub mod Entity
pub mod Summary
