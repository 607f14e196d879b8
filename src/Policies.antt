-- ===== src/Policies.antt =====
-- coflowai/policies: permissions, retry policies, budgets and the execution policy.
pub mod Permissions
pub mod Policy
