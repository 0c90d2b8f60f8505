-- ===== src/Observability.antt =====
-- The observability layer: app/observability.
pub mod Failures
pub mod Totals
pub mod Costs
pub mod Metrics
pub mod Evaluation
pub mod Langfuse
pub mod Tracing
