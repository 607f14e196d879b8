-- ===== src/Distributed.antt =====
-- coflowai/distributed: the job queue, the workers and the execution service.
pub mod Queue
pub mod Worker
pub mod Service
