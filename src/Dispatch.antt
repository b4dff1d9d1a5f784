-- ===== src/Dispatch.antt =====
-- pkg/dispatch: which native agent takes a task, and which agents are marked as unavailable.
pub mod Agents
pub mod Policy
pub mod Availability
