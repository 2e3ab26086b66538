-- ===== src/Providers.antt =====
-- The providers of scenes (src/akasha/providers).
pub mod Contracts
