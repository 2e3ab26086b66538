-- ===== src/Jobs.antt =====
-- The job stores, the stage stores and the idempotency keys (src/akasha/jobs).
pub mod Store
pub mod Stages
pub mod Keys
pub mod Table
