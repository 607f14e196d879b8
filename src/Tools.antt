-- ===== src/Tools.antt =====
-- coflowai/tools: the registry and the executor.
pub mod Registry
pub mod Calls
pub mod Executor
