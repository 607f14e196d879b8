-- ===== src/Runtime.antt =====
-- coflowai/runtime: the execution runtime.
pub mod Runtime
pub mod Drive
pub mod Control
pub mod Runs
pub mod Replay
