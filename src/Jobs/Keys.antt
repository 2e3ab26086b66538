-- ===== src/Jobs/Keys.antt =====
-- Idempotency keys (src/akasha/jobs/idempotency.py): a digest of what a job is made of.
mod Defs
mod Calls
pub mod Separation
mod Tests
unfoldable pub use Defs.*
unfoldable pub use Calls.*
