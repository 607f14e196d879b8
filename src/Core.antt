-- ===== src/Core.antt =====
-- coflowai/core: the primitive types, the error model, the retry helper and the execution context.
pub mod Types
pub mod Errors
pub mod Messages
pub mod Retry
pub mod Context
pub mod Result
pub mod Session
