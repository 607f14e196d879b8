-- ===== src/Models.antt =====
-- coflowai/models: the registry, the gateway and streams.
pub mod Registry
pub mod Gateway
pub mod Streaming
