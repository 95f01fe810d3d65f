-- ===== src/Outbound.antt =====
-- The boundary to the providers (app/outbound and app/llm/registry.py).
pub mod Request
pub mod Serialization
pub mod Scan
pub mod Registry
pub mod Gateway
