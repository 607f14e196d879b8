-- ===== src/Approvals.antt =====
-- coflowai/approvals: the gate that waits for a human decision.
pub mod Approval
