-- ===== src/Pipeline.antt =====
-- The request pipeline: its guards (app/pipeline/guards.py), and the order of its stages
-- (app/pipeline/service.py); RoundTrip joins the tokenizer, a vault and the restoration.
pub mod Guards
pub mod Service
pub mod RoundTrip
