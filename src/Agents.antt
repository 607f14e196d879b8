-- ===== src/Agents.antt =====
-- coflowai/agents.
pub mod Agent
