-- ===== src/Scheduler.antt =====
-- The scheduler (src/akasha/scheduler): the registry of sources, the planner of due runs, the
-- locks, and the orchestrator that dispatches one planned run.
pub mod Registry
pub mod Planner
pub mod Locks
pub mod Orchestrator
mod Tests
