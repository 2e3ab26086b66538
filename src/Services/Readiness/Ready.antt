-- ===== src/Services/Readiness/Ready.antt =====
-- The answer of `readiness`, for a source that has a policy.
use akasha_ingestion.Base.{string_eq}
