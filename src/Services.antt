-- ===== src/Services.antt =====
-- The ingestion services (src/akasha/services).
pub mod Sentinel2
pub mod Staged
pub mod Mirroring
pub mod Signing
pub mod Readiness
pub mod Eos04
