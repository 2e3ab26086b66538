-- ===== src/Scheduler/Locks.antt =====
-- The locks on a source and area (src/akasha/scheduler/locks.py): the registry in memory.
mod Defs
pub mod Exclusion
unfoldable pub use Defs.*
