-- ===== src/Services/Mirroring.antt =====
-- The mirroring of a source's assets (src/akasha/services/source_mirroring.py).
pub mod Defs
pub mod Bounded
mod Tests
