-- ===== src/Services/Eos04.antt =====
-- The EOS-04 radar service (src/akasha/services/eos04_ingestion.py).
pub mod Records
pub mod Parts
pub mod Register
pub mod Backfill
pub mod Ending
pub mod Concluded
pub mod Works
pub mod Served
pub mod Start
pub mod Lost
mod Tests
