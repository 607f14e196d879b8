-- ===== src/Events.antt =====
-- coflowai/events/store.py: the two event stores, and that they agree.
pub mod InMemory
pub mod Jsonl
pub mod Agreement
