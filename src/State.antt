-- ===== src/State.antt =====
-- coflowai/state: the durable records and the store that keeps them.
pub mod Checkpoint
pub mod Store
