-- ===== src/Tokenization.antt =====
-- Tokenization (app/tokenization): the token grammar, the choice of spans, and the transformation.
pub mod Grammar
pub mod Selection
pub mod Platform
pub mod Normalization
pub mod Pseudonyms
pub mod Fingerprint
pub mod Vault
pub mod Identifiers
pub mod Tokenizer
