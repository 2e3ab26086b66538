-- ===== src/Jobs/Store.antt =====
-- The job store in memory (src/akasha/jobs/store.py). A `Job` object that the store hands out is
-- the one that it holds, so a handle to it is its `job_id`, and a method that changes the object
-- changes the store. The lock makes each method one step. `uuid4()` and `datetime.now(UTC)` are
-- arguments; a time is a number of microseconds.
mod Defs
pub mod Invariant
pub mod Reach
pub mod Sharing
mod Tests
unfoldable pub use Defs.*
