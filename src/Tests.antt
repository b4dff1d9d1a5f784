-- ===== src/Tests.antt =====
-- Runs of the model on concrete inputs, and the theorems at them.
mod Numbers
mod Data
mod Routes
mod Records
mod Agents
mod Evidence
mod Replay
mod Shadowing
mod Application
mod Control
mod Manifests
