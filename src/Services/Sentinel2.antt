-- ===== src/Services/Sentinel2.antt =====
-- The Sentinel-2 ingestion service (src/akasha/services/sentinel2_ingestion.py): the summary of a
-- backfill and its loop over the items, one provider day with its ledger, one item,
-- the window of a scheduled run, and the recovery of a job whose worker died.
pub mod Summary
pub mod Day
pub mod Item
pub mod Scenes
pub mod Settled
pub mod Views
pub mod Modes
pub mod Window
pub mod Coverage
pub mod Recovery
pub mod Recovered
pub mod NoneRunning
pub mod Accounting
pub mod Progress
mod Tests
mod ItemTests
mod RecoveryTests
