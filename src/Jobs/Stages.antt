-- ===== src/Jobs/Stages.antt =====
-- The stages of a job, with their attempts (src/akasha/jobs/stage_store.py): the store in memory,
-- and the table `akasha.processing_job_stages` of migration 0002 behind `PostgresStageStore`.
-- A stage that the memory store hands out is the object that it holds, so its handle is its id.
mod Defs
pub mod Table
pub mod Invariant
pub mod Ending
pub mod Reach
pub mod Agreement
mod Tests
unfoldable pub use Defs.*
