-- ===== src/Context.antt =====
-- coflowai/context: the builder of the input of a model.
pub mod Builder
pub mod Build
