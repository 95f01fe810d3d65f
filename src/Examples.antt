-- ===== src/Examples.antt =====
-- Runs of the model at concrete inputs, and the theorems applied to them.
pub mod Data
pub mod Detection
pub mod Tokenization
pub mod Restoration
pub mod Documents
pub mod Requests
pub mod Spans
pub mod Outbound
pub mod Analysis
pub mod Limits
pub mod Vault
pub mod Service
pub mod RoundTrip
pub mod Audit
pub mod DocumentRun
pub mod Policies
pub mod RedisVault
