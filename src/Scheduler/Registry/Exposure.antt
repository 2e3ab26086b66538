-- ===== src/Scheduler/Registry/Exposure.antt =====
-- What holds of every source of the registry, whatever the settings.
use akasha_ingestion.Base.{
  some, [], String, ◌≡◌, ◌≢◌, arith, ◌==◌, string_eq, find-All, All, eq_iff,
}
use akasha_ingestion.Scheduler.Registry.Defs.{
  SourceState, Settings, disabled, public, accepted, awaiting, ingestion_source_registry,
  source_state_by_id,
}

-- Only a validated source is public; a source that waits for validation says why; the lifecycle
-- and the schedule agree and are never `disabled`; the areas of a source carry its id.
pub record IsSafe (source : SourceState) : Type 0 where
  pub validated : source.product_exposure ≡ public → source.validation_state ≡ accepted
  pub explained : source.validation_state ≡ awaiting → source.readiness_reasons ≢ []
  pub in_step : source.lifecycle_state ≡ source.schedule_state
  pub enabled : source.schedule_state ≢ disabled
  pub areas_match : All (λ aoi. aoi.source_id ≡ source.source_id) source.default_aois

-- Every source of the registry is safe in that sense, for all settings.
pub ingestion_source_registry-IsSafe :
    (settings : Settings) → All IsSafe (ingestion_source_registry settings)
unfolding ingestion_source_registry
ingestion_source_registry-IsSafe settings = ground arith

-- A source that is looked up has the id that was asked for; it is public only if its validation was
-- accepted, gives reasons while it waits for validation, has one state for lifecycle and schedule,
-- which is not `disabled`, and its areas carry its id.
pub source_state_by_id-IsSafe :
    (settings : Settings) (id : String) {source : SourceState}
    → source_state_by_id settings id ≡ some source
    → IsSafe source × (source.source_id ≡ id)
unfolding source_state_by_id
source_state_by_id-IsSafe settings id {source} e =
    let found =
      find-All IsSafe (λ s. s.source_id == id) (ingestion_source_registry settings)
        (ingestion_source_registry-IsSafe settings) e in
    (found.0, (eq_iff source.source_id id).0 found.1)
