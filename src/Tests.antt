-- ===== src/Tests.antt =====
-- The theorems about coflowai/ at concrete inputs.
mod Data
mod Core
mod Policies
mod State
mod Distributed
mod Runtime
mod Runs
mod Registries
mod Workflows
mod Tools
mod Agents
mod Gateway
mod Context
mod Replay
mod Streaming
