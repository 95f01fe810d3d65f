-- ===== src/Detection.antt =====
-- Detection (app/detection): what the gateway makes of raw recognizer hits.
pub mod Entities
pub mod Overlap
pub mod Characters
pub mod Checksums
pub mod Config
pub mod Postprocess
