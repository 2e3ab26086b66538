-- ===== src/Storage.antt =====
-- The object store (src/akasha/storage/object_store.py).
pub mod Paths
pub mod Memory
pub mod Reading
mod Tests
