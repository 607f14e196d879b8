-- ===== src/Workflows.antt =====
-- coflowai/workflows: the composite nodes, the workflow and its compiler.
pub mod Executable
pub mod Nodes
pub mod Parallel
pub mod Workflow
pub mod Compiler
