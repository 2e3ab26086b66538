-- ===== src/Services/Readiness/Policy.antt =====
-- `ReadinessPolicy`, the messages of the reasons, and the policies that the settings give. `lower` is
-- `str.lower`; a percentage is a number of millionths.
use akasha_ingestion.Base.{
  ℕ, Bool, true, false, not, Option, none, some, List, [], ◌∷◌, String, map, if◌then◌else◌, ◌==◌,
  string_eq, filter, any, text_lt,
}
use akasha_ingestion.Base.Dict.{Dict, lookup, insert}
use akasha_ingestion.Base.Sort.{sort_by}
use akasha_ingestion.Base.Text.{codes}
use akasha_ingestion.Providers.Contracts.{other_error, Result, ok, raised}
use akasha_ingestion.Jobs.Keys.{join}
use Prim.Native.String.{◌++◌}

pub record ReadinessPolicy : Type 0 where
  pub source_id : String
  pub aoi_id : String
  pub provider_route : String
  pub job_type : String
  pub required_indices : List String
  pub freshness_max_age_hours : ℕ
  pub reason_messages : Dict String String
  pub min_coverage_percent : Option ℕ
  pub enabled : Bool
  pub require_successful_job : Bool

abbrev pub sentinel_reason_messages : Dict String String
sentinel_reason_messages =
    ("SOURCE_MISMATCH", "Requested source is not configured for the Sentinel-2 preload policy.")
    ∷ ("AOI_MISMATCH", "Requested AOI is not configured for the Sentinel-2 preload policy.")
    ∷ (
      "NO_SUCCESSFUL_PRELOAD_JOB",
      "No successful Sentinel-2 preload job is registered for this AOI.",
    )
    ∷ ("NO_PRELOAD_OUTPUTS", "No precomputed NDVI outputs are registered for this AOI.")
    ∷ ("MISSING_INDEX_COVERAGE", "Precomputed outputs exist, but NDVI coverage is missing.")
    ∷ ("PRELOAD_STALE", "Latest successful preload is older than the freshness threshold.")
    ∷ ("SOURCE_NOT_ENABLED", "Requested source is not enabled for analytics readiness.")
    ∷ ("LOW_COVERAGE", "Latest outputs do not satisfy the configured coverage threshold.")
    ∷ []

abbrev pub resourcesat_reason_messages : Dict String String
resourcesat_reason_messages =
    ("SOURCE_MISMATCH", "Requested source is not configured for ResourceSat readiness.")
    ∷ ("AOI_MISMATCH", "Requested AOI is not configured for ResourceSat readiness.")
    ∷ (
      "NO_SUCCESSFUL_RESOURCE_SAT_JOB",
      "No successful ResourceSat full-pipeline job is registered for this AOI.",
    )
    ∷ ("NO_RESOURCE_SAT_OUTPUTS", "No ResourceSat derived outputs are registered for this AOI.")
    ∷ (
      "MISSING_INDEX_COVERAGE",
      "ResourceSat outputs exist, but required index coverage is missing.",
    )
    ∷ (
      "RESOURCE_SAT_STALE",
      "Latest successful ResourceSat output is older than the freshness threshold.",
    )
    ∷ ("LOW_COVERAGE", "ResourceSat outputs do not satisfy the configured coverage threshold.")
    ∷ ("SOURCE_NOT_ENABLED", "Requested ResourceSat source is not enabled for analytics readiness.")
    ∷ []

abbrev pub landsat_reason_messages : Dict String String
landsat_reason_messages =
    ("SOURCE_MISMATCH", "Requested source is not configured for Landsat readiness.")
    ∷ ("AOI_MISMATCH", "Requested AOI is not configured for Landsat readiness.")
    ∷ (
      "NO_SUCCESSFUL_PRELOAD_JOB",
      "No successful Landsat full-pipeline job is registered for this AOI.",
    )
    ∷ ("NO_PRELOAD_OUTPUTS", "No Landsat derived outputs are registered for this AOI.")
    ∷ ("MISSING_INDEX_COVERAGE", "Landsat outputs exist, but required index coverage is missing.")
    ∷ ("PRELOAD_STALE", "Latest successful Landsat output is older than the freshness threshold.")
    ∷ ("SOURCE_NOT_ENABLED", "Landsat analytics readiness is not enabled.")
    ∷ ("LOW_COVERAGE", "Landsat outputs do not satisfy the configured coverage threshold.")
    ∷ []

-- The settings of one preloaded source.
pub record Preload : Type 0 where
  pub source_id : String
  pub aoi_id : String
  pub provider_route : String
  pub freshness_max_age_hours : ℕ
  pub enabled : Bool
  pub required_indices : List String
  pub min_coverage_percent : ℕ
  -- `RESOURCESAT_PROFILES[source_id].supported_indices`
  pub supported_indices : List String

pub record ReadinessSettings : Type 0 where
  pub sentinel : Preload
  pub landsat : Preload
  pub liss3 : Preload
  pub liss4 : Preload
  pub awifs : Preload

abbrev pub sentinel_policy : Preload → ReadinessPolicy
sentinel_policy p = record {
  source_id = p.source_id;
  aoi_id = p.aoi_id;
  provider_route = p.provider_route;
  job_type = "sentinel2_backfill";
  required_indices = "ndvi" ∷ [];
  freshness_max_age_hours = p.freshness_max_age_hours;
  reason_messages = sentinel_reason_messages;
  min_coverage_percent = none;
  enabled = true;
  require_successful_job = false;
}

-- The names of `LANDSAT_INDEX_ASSETS`.
abbrev pub landsat_indices : List String
landsat_indices = "ndvi" ∷ "msavi" ∷ "ndmi" ∷ "ndwi_green_nir" ∷ []

abbrev pub names : String → List String → Bool
names name list = any (λ n. n == name) list

abbrev pub distinct : List String → List String
distinct [] = []
distinct (x ∷ xs) = if names x (distinct xs) then distinct xs else x ∷ distinct xs

-- `sorted(set(required) - set(supported))`
abbrev pub unsupported : List String → List String → List String
unsupported supported required =
    sort_by (λ a b. not (text_lt b a)) (distinct (filter (λ i. not (names i supported)) required))

-- The checks of the indices, with the two messages.
abbrev pub checked : String → String → List String → List String → Result (List String)
checked prefix empty (i ∷ rest) required =
    raised (other_error (codes (prefix ++ join ", " (i ∷ rest))))
checked prefix empty [] [] = raised (other_error (codes empty))
checked prefix empty [] (i ∷ required) = ok (i ∷ required)

module _ (lower : String → String) where
  abbrev pub landsat_from : Preload → Result (List String) → Result ReadinessPolicy
  landsat_from p (raised f) = raised f
  landsat_from p (ok indices) = ok (record {
    source_id = p.source_id;
    aoi_id = p.aoi_id;
    provider_route = p.provider_route;
    job_type = "landsat_backfill";
    required_indices = indices;
    freshness_max_age_hours = p.freshness_max_age_hours;
    reason_messages = landsat_reason_messages;
    min_coverage_percent = none;
    enabled = p.enabled;
    require_successful_job = true;
  })

  unfoldable pub landsat_policy : Preload → Result ReadinessPolicy
  unfolding text_lt
  landsat_policy p =
      let required = map lower p.required_indices in
      landsat_from p (
        checked "unsupported Landsat readiness indices: "
          "Landsat readiness requires at least one index" (unsupported landsat_indices required)
          required)

  abbrev pub resourcesat_from : Preload → Result (List String) → Result ReadinessPolicy
  resourcesat_from p (raised f) = raised f
  resourcesat_from p (ok indices) = ok (record {
    source_id = p.source_id;
    aoi_id = p.aoi_id;
    provider_route = p.provider_route;
    job_type = "resourcesat_backfill";
    required_indices = indices;
    freshness_max_age_hours = p.freshness_max_age_hours;
    reason_messages = resourcesat_reason_messages;
    min_coverage_percent = some p.min_coverage_percent;
    enabled = p.enabled;
    require_successful_job = true;
  })

  unfoldable pub resourcesat_policy : Preload → Result ReadinessPolicy
  unfolding text_lt
  resourcesat_policy p =
      let required = map lower p.required_indices in
      resourcesat_from p (
        checked "unsupported readiness indices: " "readiness requires at least one index"
          (unsupported p.supported_indices required) required)

  -- `policies[source_id] = policy`, unless the policy raised; the first error ends it all.
  abbrev pub add :
      String
      → Result ReadinessPolicy
      → Result (Dict String ReadinessPolicy)
      → Result (Dict String ReadinessPolicy)
  add source_id (raised f) (raised g) = raised g
  add source_id (raised f) (ok policies) = raised f
  add source_id (ok policy) (raised g) = raised g
  add source_id (ok policy) (ok policies) = ok (insert source_id policy policies)

  unfoldable pub policies : ReadinessSettings → Result (Dict String ReadinessPolicy)
  policies s = add s.awifs.source_id (resourcesat_policy s.awifs) (
      add s.liss4.source_id (resourcesat_policy s.liss4) (
        add s.liss3.source_id (resourcesat_policy s.liss3) (
          add s.landsat.source_id (landsat_policy s.landsat)
            (ok (insert s.sentinel.source_id (sentinel_policy s.sentinel) [])))))

  abbrev pub policy_in :
      String → Result (Dict String ReadinessPolicy) → Result (Option ReadinessPolicy)
  policy_in source_id (raised f) = raised f
  policy_in source_id (ok found) = ok (lookup source_id found)

  unfoldable pub policy : String → ReadinessSettings → Result (Option ReadinessPolicy)
  unfolding policies
  policy source_id s = policy_in source_id (policies s)
