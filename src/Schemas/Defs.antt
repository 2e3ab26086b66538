-- ===== src/Schemas/Defs.antt =====
-- `SyncRequest` with its field constraints and `validate_date_range`.
use akasha_ingestion.Base.{
  ℕ, ◌-◌, Bool, true, false, not, ◌||◌, Option, none, some, [], ◌∷◌, String, if◌then◌else◌, ltb,
  ◌==◌, string_eq,
}
use akasha_ingestion.Base.Dict.{Dict, lookup}
use Prim.Native.String.{◌++◌}

pub data JobType : Type 0 where
  mock_sync sentinel2_backfill landsat_backfill resourcesat_backfill eos04_backfill : JobType
  nisar_backfill : JobType

pub data Mode : Type 0 where
  metadata_only mirror_only download_only prepare_only composite_only full_pipeline : Mode

pub record SyncRequest : Type 0 where
  pub source_id : String
  pub aoi_id : String
  pub date_start : ℕ
  pub date_end : ℕ
  pub job_type : JobType
  pub provider_route : Option String
  pub mode : Mode

-- The messages of the `ValueError`s, one constructor for each kind.
pub data RequestError : Type 0 where
  empty_text date_order wrong_source wrong_route wrong_mode range_too_long route_not_supported :
      RequestError

pub data Checked : Type 0 where
  accepted : Checked
  rejected : RequestError → Checked

-- `RESOURCESAT_SOURCE_COLLECTIONS`
abbrev pub resourcesat_source_collections : Dict String String
resourcesat_source_collections =
    ("resourcesat-2a-liss3-boa", "ResourceSat-2A_LISS3_BOA")
    ∷ ("resourcesat-2a-liss4-mx70-l2", "ResourceSat-2A_LISS4-MX70_L2")
    ∷ ("resourcesat-2a-awifs-boa", "ResourceSat-2A_AWIFS_BOA")
    ∷ []

-- `provider_route == route`
abbrev pub route_is : String → Option String → Bool
route_is route none = false
route_is route (some given) = given == route

abbrev pub check : Bool → RequestError → Checked → Checked
check bad e rest = if bad then rejected e else rest

-- `mode in {...}` for each job type.
abbrev pub sentinel2_mode : Mode → Bool
sentinel2_mode metadata_only = true
sentinel2_mode mirror_only = true
sentinel2_mode full_pipeline = true
sentinel2_mode _ = false

abbrev pub landsat_mode : Mode → Bool
landsat_mode metadata_only = true
landsat_mode mirror_only = true
landsat_mode prepare_only = true
landsat_mode full_pipeline = true
landsat_mode _ = false

abbrev pub resourcesat_mode : Mode → Bool
resourcesat_mode mirror_only = false
resourcesat_mode _ = true

abbrev pub bhoonidhi_sar_mode : Mode → Bool
bhoonidhi_sar_mode metadata_only = true
bhoonidhi_sar_mode download_only = true
bhoonidhi_sar_mode prepare_only = true
bhoonidhi_sar_mode full_pipeline = true
bhoonidhi_sar_mode _ = false

-- The checks that three of the job types share: one source, one route, a set of modes.
abbrev pub check_source : String → String → Bool → SyncRequest → Checked → Checked
check_source source route mode_ok r rest = check (not (r.source_id == source)) wrong_source (
    check (not (route_is route r.provider_route)) wrong_route (check (not mode_ok) wrong_mode rest))

abbrev pub check_collection : Option String → SyncRequest → Checked
check_collection none r = rejected wrong_source
check_collection (some collection) r =
    check (not (route_is ("bhoonidhi:" ++ collection) r.provider_route)) wrong_route
      (check (not (resourcesat_mode r.mode)) wrong_mode accepted)

abbrev pub check_job_type : JobType → SyncRequest → Checked
check_job_type sentinel2_backfill r =
    check_source "sentinel-2-l2a" "earthsearch:sentinel-2-l2a" (sentinel2_mode r.mode) r accepted
check_job_type landsat_backfill r =
    check_source "landsat-c2-l2" "planetary-computer:landsat-c2-l2" (landsat_mode r.mode) r accepted
check_job_type resourcesat_backfill r =
    check_collection (lookup r.source_id resourcesat_source_collections) r
check_job_type eos04_backfill r =
    check_source "eos-04-sar-mrs-l2b" "bhoonidhi:EOS-04_SAR-MRS_L2B" (bhoonidhi_sar_mode r.mode) r
      accepted
check_job_type nisar_backfill r =
    check_source "nisar-ssar-beta-gcov" "bhoonidhi:NISAR_SSAR-Beta_GCOV" (bhoonidhi_sar_mode r.mode)
      r (check (ltb 366 (r.date_end - r.date_start)) range_too_long accepted)
check_job_type mock_sync r = elim r.provider_route [
  | none ↦ accepted
  | some route ↦ rejected route_not_supported
]

-- `Field(min_length=1)`
abbrev pub is_blank : Option String → Bool
is_blank none = false
is_blank (some s) = s == ""

unfoldable pub validate : SyncRequest → Checked
validate r =
    check (r.source_id == "" || (r.aoi_id == "" || is_blank r.provider_route)) empty_text
      (check (ltb r.date_end r.date_start) date_order (check_job_type r.job_type r))
