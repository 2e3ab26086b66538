-- ===== src/Services/Readiness.antt =====
-- Whether a source and area is ready for analytics (src/akasha/services/readiness.py).
pub mod Policy
pub mod Scenes
pub mod Decision
pub mod Verdict
pub mod Answers
pub mod Ready
mod Tests
