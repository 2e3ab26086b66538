-- ===== src/Processing.antt =====
-- What the processing of scenes decides (src/akasha/processing).
pub mod Comparability
pub mod Temporal
