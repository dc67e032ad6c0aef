-- ===== src/Observability.antt =====
-- internal/observability: metrics and traces.
pub mod Metrics
pub mod Tracing
mod Samples
pub mod Middleware
mod Examples
