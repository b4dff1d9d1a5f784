-- ===== src/Application.antt =====
-- internal/application: running a task on the runtime that the router selects, and its review.
pub mod Prompt
pub mod Execution
pub mod Ports
pub mod Runner
pub mod Review
pub mod Monitor
pub mod Arguments
pub mod Control
