-- ===== src/Schemas.antt =====
-- The request that starts a job (`SyncRequest` of src/akasha/schemas.py). Its texts stand as they are
-- after `str_strip_whitespace`; a date is a number of days.
mod Defs
pub mod Accepted
mod Tests
unfoldable pub use Defs.*
