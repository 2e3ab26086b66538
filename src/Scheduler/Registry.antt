-- ===== src/Scheduler/Registry.antt =====
-- The registry of sources (src/akasha/scheduler/source_registry.py), built from the settings.
mod Defs
pub mod Exposure
unfoldable pub use Defs.*
