-- ===== src/Vault.antt =====
-- Stores of the token mappings (app/vault): in memory, and in Redis under envelope encryption.
pub mod Memory
pub mod Crypto
pub mod Records
pub mod Redis
