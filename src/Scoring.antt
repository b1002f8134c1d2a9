-- ===== src/Scoring.antt =====
-- The scores of a run, which three services calculate: services/score-engine, services/orchestrator
-- and services/control-panel.
pub mod Formula
pub mod Orchestrated
pub mod Panel
pub mod Services
pub mod Twins
mod Tests
