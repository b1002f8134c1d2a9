-- ===== src/Orchestrator.antt =====
-- services/orchestrator: the queue of benchmark runs and the manager that executes them.
pub mod Model
pub mod Statuses
pub mod Store
pub mod Execute
pub mod Manager
pub mod Slots
pub mod Sequences
pub mod Limits
pub mod Endpoint
pub mod Cancel
pub mod Samples
mod Tests
mod Trials
