-- ===== src/Scheduler/Registry/Defs.antt =====
-- The states of the sources. A percentage is a number of millionths; it is only passed on.
use akasha_ingestion.Base.{
  ℕ, ◌*◌, Bool, Option, List, [], ◌∷◌, ◌++◌, String, if◌then◌else◌, ◌==◌, string_eq, find,
}

pub data SourceScheduleState : Type 0 where
  disabled manual scheduled : SourceScheduleState

abbrev pub SourceLifecycleState : Type 0
SourceLifecycleState = SourceScheduleState

pub data SourceProductExposure : Type 0 where
  hidden admin public : SourceProductExposure

pub data SourceValidationState : Type 0 where
  awaiting accepted : SourceValidationState

pub data SourceCadenceClass : Type 0 where
  revisit_5d revisit_8d revisit_12d revisit_24d regional_context : SourceCadenceClass

pub record SourceAoiState : Type 0 where
  pub source_id : String
  pub aoi_id : String
  pub provider_route : String
  pub date_window_days : ℕ
  pub refresh_days : ℕ
  pub freshness_max_age_hours : ℕ
  pub max_downloads : ℕ
  pub min_coverage_percent : ℕ
  pub composite_window_days : ℕ

-- The fields of one value (`commercial_state`, `aoi_scope`, `host_pool`, `owner`) are left out.
pub record SourceState : Type 0 where
  pub source_id : String
  pub provider_route : String
  pub lifecycle_state : SourceLifecycleState
  pub schedule_state : SourceScheduleState
  pub capabilities : List String
  pub product_exposure : SourceProductExposure
  pub validation_state : SourceValidationState
  pub readiness_reasons : List String
  pub validation_profile : String
  pub cadence_class : SourceCadenceClass
  pub default_aois : List SourceAoiState

-- The settings of one source; `resourcesat_liss3_preload_aoi_id` is `resourcesat_liss3.aoi_id`.
pub record PreloadSettings : Type 0 where
  pub source_id : String
  pub aoi_id : String
  pub provider_route : String
  pub date_window_days : ℕ
  pub refresh_days : ℕ
  pub freshness_max_age_hours : ℕ
  pub max_downloads : ℕ
  pub schedule_enabled : Bool
  pub min_coverage_percent : ℕ
  pub profile_version : String

pub record Settings : Type 0 where
  pub resourcesat_liss3 : PreloadSettings
  pub resourcesat_liss4 : PreloadSettings
  pub resourcesat_awifs : PreloadSettings
  pub eos04 : PreloadSettings
  pub nisar : PreloadSettings
  pub landsat : PreloadSettings
  pub landsat_readiness_enabled : Bool
  pub field_min_coverage_percentage : ℕ

-- What the registry reads of a `ResourceSatProfile`.
pub record ResourceSatProfile : Type 0 where
  pub source_id : String
  pub validation_profile_version : String

abbrev pub liss3_profile : ResourceSatProfile
liss3_profile = record {
  source_id = "resourcesat-2a-liss3-boa";
  validation_profile_version = "phase3-resourcesat-liss3-boa-validation-v1";
}

abbrev pub liss4_profile : ResourceSatProfile
liss4_profile = record {
  source_id = "resourcesat-2a-liss4-mx70-l2";
  validation_profile_version = "phase3-resourcesat-liss4-mx70-l2-validation-v1";
}

abbrev pub awifs_profile : ResourceSatProfile
awifs_profile = record {
  source_id = "resourcesat-2a-awifs-boa";
  validation_profile_version = "phase3-resourcesat-awifs-boa-validation-v1";
}

abbrev pub scheduled_if : Bool → SourceScheduleState
scheduled_if enabled = if enabled then scheduled else manual

unfoldable pub state : ResourceSatProfile → PreloadSettings → SourceCadenceClass → SourceState
state profile p cadence_class = record {
  source_id = profile.source_id;
  provider_route = p.provider_route;
  lifecycle_state = scheduled_if p.schedule_enabled;
  schedule_state = scheduled_if p.schedule_enabled;
  capabilities = "search" ∷ "download" ∷ "prepare" ∷ "composite" ∷ "indices" ∷ "readiness" ∷ [];
  product_exposure = public;
  validation_state = accepted;
  readiness_reasons =
      "SOURCE_NOT_ENABLED" ∷ "NO_SUCCESSFUL_RESOURCE_SAT_JOB" ∷ "NO_RESOURCE_SAT_OUTPUTS"
      ∷ "MISSING_INDEX_COVERAGE" ∷ "RESOURCE_SAT_STALE" ∷ "LOW_COVERAGE" ∷ [];
  validation_profile = profile.validation_profile_version;
  cadence_class = cadence_class;
  default_aois =
      record {
        source_id = profile.source_id;
        aoi_id = p.aoi_id;
        provider_route = p.provider_route;
        date_window_days = p.date_window_days;
        refresh_days = p.refresh_days;
        freshness_max_age_hours = p.freshness_max_age_hours;
        max_downloads = p.max_downloads;
        min_coverage_percent = p.min_coverage_percent;
        composite_window_days = p.date_window_days;
      }
      ∷ [];
}

unfoldable pub resourcesat_source_registry : Settings → List SourceState
unfolding state
resourcesat_source_registry settings =
    state liss3_profile settings.resourcesat_liss3 revisit_24d
    ∷ state liss4_profile settings.resourcesat_liss4 revisit_5d
    ∷ state awifs_profile settings.resourcesat_awifs regional_context
    ∷ []

-- The AOI of a source whose age limit is its refresh interval, in hours.
abbrev pub sar_aoi : PreloadSettings → SourceAoiState
sar_aoi p = record {
  source_id = p.source_id;
  aoi_id = p.aoi_id;
  provider_route = p.provider_route;
  date_window_days = p.date_window_days;
  refresh_days = p.refresh_days;
  freshness_max_age_hours = p.refresh_days * 24;
  max_downloads = p.max_downloads;
  min_coverage_percent = 0;
  composite_window_days = 0;
}

unfoldable pub eos04_source_state : Settings → SourceState
eos04_source_state settings = record {
  source_id = settings.eos04.source_id;
  provider_route = settings.eos04.provider_route;
  lifecycle_state = scheduled_if settings.eos04.schedule_enabled;
  schedule_state = scheduled_if settings.eos04.schedule_enabled;
  capabilities = "search" ∷ "download" ∷ "prepare" ∷ "validate" ∷ "catalog" ∷ "tiles" ∷ [];
  product_exposure = hidden;
  validation_state = accepted;
  readiness_reasons = [];
  validation_profile = settings.eos04.profile_version;
  cadence_class = revisit_12d;
  default_aois = sar_aoi settings.eos04 ∷ [];
}

unfoldable pub nisar_source_state : Settings → SourceState
nisar_source_state settings = record {
  source_id = settings.nisar.source_id;
  provider_route = settings.nisar.provider_route;
  lifecycle_state = manual;
  schedule_state = manual;
  capabilities =
      "search" ∷ "download" ∷ "prepare" ∷ "validate" ∷ "catalog" ∷ "tiles" ∷ "field_evidence" ∷ [];
  product_exposure = hidden;
  validation_state = awaiting;
  readiness_reasons = "Real S-SAR Beta GCOV staging validation is required." ∷ [];
  validation_profile = settings.nisar.profile_version;
  cadence_class = revisit_12d;
  default_aois = sar_aoi settings.nisar ∷ [];
}

unfoldable pub landsat_source_state : Settings → SourceState
landsat_source_state settings = record {
  source_id = settings.landsat.source_id;
  provider_route = settings.landsat.provider_route;
  lifecycle_state = scheduled_if settings.landsat.schedule_enabled;
  schedule_state = scheduled_if settings.landsat.schedule_enabled;
  capabilities =
      "search" ∷ "download" ∷ "prepare" ∷ "validate" ∷ "catalog" ∷ "indices" ∷ "readiness" ∷ [];
  product_exposure = if settings.landsat_readiness_enabled then public else hidden;
  validation_state = if settings.landsat_readiness_enabled then accepted else awaiting;
  readiness_reasons =
      if settings.landsat_readiness_enabled
      then []
      else "Real Landsat Collection 2 staging validation is required." ∷ [];
  validation_profile = settings.landsat.profile_version;
  cadence_class = revisit_8d;
  default_aois =
      record {
        source_id = settings.landsat.source_id;
        aoi_id = settings.landsat.aoi_id;
        provider_route = settings.landsat.provider_route;
        date_window_days = settings.landsat.date_window_days;
        refresh_days = settings.landsat.refresh_days;
        freshness_max_age_hours = settings.landsat.freshness_max_age_hours;
        max_downloads = settings.landsat.max_downloads;
        min_coverage_percent = settings.field_min_coverage_percentage;
        composite_window_days = 0;
      }
      ∷ [];
}

unfoldable pub ingestion_source_registry : Settings → List SourceState
unfolding resourcesat_source_registry eos04_source_state nisar_source_state landsat_source_state
ingestion_source_registry settings =
    resourcesat_source_registry settings
    ++ (eos04_source_state settings
        ∷ nisar_source_state settings
        ∷ landsat_source_state settings
        ∷ [])

unfoldable pub source_state_by_id : Settings → String → Option SourceState
unfolding ingestion_source_registry
source_state_by_id settings source_id =
    find (λ source. source.source_id == source_id) (ingestion_source_registry settings)
