-- ===== src/Services/Signing.antt =====
-- Signed references (src/akasha/services/signing.py).
pub mod Defs
pub mod Canonical
pub mod Sound
mod Tests
