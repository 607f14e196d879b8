-- ===== src/Observability.antt =====
-- coflowai/observability: the usage tracker.
pub mod Usage
