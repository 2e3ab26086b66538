-- ===== src/Processing/Temporal.antt =====
-- The comparison of a radar observation with the earlier ones
-- (src/akasha/processing/sar_temporal.py).
pub mod Baseline
pub mod Analysis
pub mod Returns
pub mod Returned
mod Tests
