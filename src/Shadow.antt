-- ===== src/Shadow.antt =====
-- pkg/shadow: the offline evaluation of recorded shadow decisions.
pub mod Records
pub mod Evidence
pub mod Replay
pub mod Stream
pub mod Report
pub mod Calibration
pub mod Readiness
pub mod Promotion
pub mod Evaluate
