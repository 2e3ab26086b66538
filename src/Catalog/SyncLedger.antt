-- ===== src/Catalog/SyncLedger.antt =====
-- The sync ledger (src/akasha/catalog/sync_ledger_repository.py): one record for each source, area
-- and provider day, in memory. A date is a number of days, a moment one of microseconds.
mod Defs
pub mod Queries
mod Tests
unfoldable pub use Defs.*
