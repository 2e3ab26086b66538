-- ===== src/Scheduler/Orchestrator.antt =====
-- The orchestrator (src/akasha/scheduler/orchestrator.py): one planned run through the gates, the
-- lock, the checks of the runtime and the dispatch to the ingestion service.
mod Results
mod Defs
pub mod Gates
pub mod Dispatch
unfoldable pub use Defs.*
unfoldable pub use Results.*
