-- ===== src/Jobs/Table.antt =====
-- The job store in SQL (src/akasha/jobs/sql_store.py): the table `akasha.processing_jobs` with the
-- unique index on the keys of active rows (migration 0001). Each `UPDATE` is one transaction.
mod Defs
pub mod Invariant
pub mod Reach
pub mod Sharing
mod Tests
unfoldable pub use Defs.*
