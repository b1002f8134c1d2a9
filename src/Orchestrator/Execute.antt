-- ===== src/Orchestrator/Execute.antt =====
-- services/orchestrator/internal/orchestrator/manager.go: `execute` and what it calls, the life of
-- one claimed run.
pub mod World
pub mod Run
pub mod Rules
pub mod Life
pub mod Stages
pub mod Ending
