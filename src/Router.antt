-- ===== src/Router.antt =====
-- pkg/router: selection of a model for a task.
pub mod Types
pub mod Complexity
pub mod Kind
pub mod Filter
pub mod Preferences
pub mod Scorer
pub mod Decision
pub mod Telemetry
pub mod Events
pub mod Prompt
pub mod Executors
pub mod Measurement
pub mod Admission
pub mod Sequential
pub mod Registry
pub mod Shortlist
pub mod Routing
pub mod Stats
pub mod Store
pub mod ShadowRoutes
pub mod ShadowRecords
pub mod Shadowing
