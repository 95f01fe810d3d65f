-- ===== src/Documents.antt =====
-- The document side of the gateway (app/documents): extraction models, segmentation and its
-- spans, analysis, protection, and the pipeline that runs them in order.
pub mod Extraction
pub mod Segmentation
pub mod Spans
pub mod Analysis
pub mod Protection
pub mod Pipeline
