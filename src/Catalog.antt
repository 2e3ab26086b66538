-- ===== src/Catalog.antt =====
-- The catalog repositories (src/akasha/catalog).
pub mod SyncLedger
