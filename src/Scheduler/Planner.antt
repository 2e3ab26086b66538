-- ===== src/Scheduler/Planner.antt =====
-- The planner (src/akasha/scheduler/planner.py): which source and area is due at a moment. A moment
-- is a number of microseconds and a date a number of days, both from the first of January of the
-- year 1; the moment of a plan lies late enough for its date window.
mod Defs
pub mod Decision
unfoldable pub use Defs.*
