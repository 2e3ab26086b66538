-- ===== src/Services/Eos04/Records.antt =====
-- What the EOS-04 service reads and writes: candidates, prepared scenes, the records of the
-- catalogue, its settings, and the operations of the parts that it is wired to.
use akasha_ingestion.Base.{
  ℕ, ◌+◌, Bool, Option, none, some, List, [], ◌∷◌, String, if◌then◌else◌, ◌==◌, string_eq,
}
use akasha_ingestion.Base.Dict.{Dict}
use akasha_ingestion.Base.Json.{Value, number, text, texts}
use akasha_ingestion.Providers.Contracts.{Failure, Result}
use akasha_ingestion.Schemas.{
  Mode, metadata_only, mirror_only, download_only, prepare_only, composite_only, full_pipeline,
}
use akasha_ingestion.Services.Staged.{Step}

pub record BoundingBox : Type 0 where
  pub west : Value
  pub south : Value
  pub east : Value
  pub north : Value

-- `BhoonidhiCandidate`. An area is a number of some unit, a moment counts from `datetime.min`.
pub record Candidate : Type 0 where
  pub provider_product_id : String
  pub online : Bool
  pub intersects_aoi : Bool
  pub overlap_area : ℕ
  pub acquisition_at : Option ℕ
  pub bbox : BoundingBox
  -- `raw_item["geometry"]`, if it is a dict
  pub raw_geometry : Option Value
  pub provider_metadata : Dict String Value
  pub provider_properties : Value

pub record Aoi : Type 0 where
  pub geometry : Value
  pub bbox : Value

-- `_DownloadedProduct`
pub record DownloadedProduct : Type 0 where
  pub candidate : Candidate
  pub path : String
  pub object_path : String
  pub checksum_sha256 : String

-- `SelectedEos04Product`
pub record SelectedProduct : Type 0 where
  pub product_id : String
  pub package_path : String
  pub acquisition_at : Option ℕ
  pub aoi_id : String
  pub bbox : BoundingBox
  pub geometry : Value
  pub provider_metadata : Dict String Value

-- The entries that the service reads of `PreparedEos04Scene.manifest`.
pub record Manifest : Type 0 where
  pub input_representation : Value
  pub calibration_formula : Value
  pub rtc_applied : Bool
  pub comparison_metadata : Value
  pub policy_version : Value
  pub key_hash : Value

-- `PreparedEos04Scene`
pub record PreparedScene : Type 0 where
  pub product_id : String
  pub acquisition_at : Option ℕ
  pub backscatter_path : String
  pub checksum_sha256 : String
  pub polarizations : List String
  pub bbox : Value
  pub geometry : Value
  pub crs : String
  pub resolution : Value
  pub manifest : Manifest

-- The fields of `ProviderSceneRecord` that the service sets.
pub record SceneRecord : Type 0 where
  pub id : Option String
  pub provider_adapter : String
  pub source_id : String
  pub provider_product_id : String
  pub acquisition_at : Option ℕ
  pub scene_geometry : Value
  pub status : String
  pub license_state : String
  pub provider_metadata : Dict String Value
  pub aoi_id : String
  pub provider_route_id : Option String
  pub logical_scene_key : String
  pub native_crs : String
  pub native_resolution : Value
  pub raw_object_path : String
  pub file_size_bytes : ℕ
  pub pgstac_item_id : Option String

-- The fields of `SceneAssetRecord` that the service sets.
pub record AssetRecord : Type 0 where
  pub scene_id : String
  pub asset_kind : String
  pub asset_key : String
  pub object_path : String
  pub asset_href : String
  pub checksum_sha256 : String
  pub size_bytes : ℕ
  pub storage_backend : String
  pub nodata_value : Value
  pub roles : List String
  pub media_type : String
  pub metadata : Dict String Value

pub record Settings : Type 0 where
  pub backfill_search_item_cap : ℕ
  pub eos04_max_downloads_per_run : ℕ
  pub minio_bucket : String
  pub memory_runtime : Bool
  pub approved_runtime_required : Bool
  pub approved_runtime : Bool
  pub required_headroom_bytes : ℕ
  pub request_params_version : String
  pub task_always_eager : Bool

-- The repositories, the object store, the provider, the raster pipeline and the host, over the
-- state `E` outside of the job and stage stores; a `has_` field says whether the part is wired.
pub record Operations (E : Type 0) : Type 0 where
  pub has_aoi_repository : Bool
  pub has_object_store : Bool
  pub has_scene_repository : Bool
  pub has_asset_repository : Bool
  pub has_pgstac_repository : Bool
  pub has_route_repository : Bool
  pub runtime_roots : Option Failure
  pub disk_free : ℕ
  pub fromisoformat : String → Result ℕ
  pub isoformat : ℕ → String
  pub aoi_get : String → Step E (Option Aoi)
  pub search : String → String → Aoi → ℕ → ℕ → ℕ → Step E (List Candidate)
  pub download_product : String → String → String → Step E (String × Option String)
  pub file_sha256 : String → Step E String
  pub file_size : String → Step E ℕ
  pub put_raw_file : String → String → String → String → Step E (String × String)
  pub prepare_product : SelectedProduct → Step E PreparedScene
  pub put_prepared_cog_file : String → String → String → String → String → Step E (String × String)
  pub get_by_route_key : String → String → Step E (Option String)
  pub upsert_scene : SceneRecord → Step E SceneRecord
  pub upsert_asset : AssetRecord → Step E AssetRecord
  pub build_item : SceneRecord → AssetRecord → Result (String × Value)
  pub upsert_item_json : String × Value → Step E Unit

abbrev pub collection_id : String
collection_id = "EOS-04_SAR-MRS_L2B"

-- `Eos04BackfillSummary`, with its dates as days
pub record Summary : Type 0 where
  pub source_id : String
  pub provider_route : String
  pub aoi_id : String
  pub date_start : ℕ
  pub date_end : ℕ
  pub mode : Mode
  pub searched_count : ℕ
  pub selected_count : ℕ
  pub downloaded_count : ℕ
  pub prepared_count : ℕ
  pub registered_count : ℕ
  pub failed_count : ℕ
  pub product_ids : List String
  pub item_ids : List String

abbrev pub mode_text : Mode → String
mode_text metadata_only = "metadata_only"
mode_text mirror_only = "mirror_only"
mode_text download_only = "download_only"
mode_text prepare_only = "prepare_only"
mode_text composite_only = "composite_only"
mode_text full_pipeline = "full_pipeline"

-- `summary.metadata()`
abbrev pub summary_metadata : (ℕ → String) → Summary → Dict String Value
summary_metadata isoformat s =
    ("source_id", text s.source_id)
    ∷ ("provider_route", text s.provider_route)
    ∷ ("aoi_id", text s.aoi_id)
    ∷ ("date_start", text (isoformat s.date_start))
    ∷ ("date_end", text (isoformat s.date_end))
    ∷ ("mode", text (mode_text s.mode))
    ∷ ("searched_count", number s.searched_count)
    ∷ ("selected_count", number s.selected_count)
    ∷ ("downloaded_count", number s.downloaded_count)
    ∷ ("prepared_count", number s.prepared_count)
    ∷ ("registered_count", number s.registered_count)
    ∷ ("failed_count", number s.failed_count)
    ∷ ("product_ids", texts s.product_ids)
    ∷ ("item_ids", texts s.item_ids)
    ∷ []

-- `EOS04_STAGE_NAMES`
abbrev pub stage_names : List String
stage_names =
    "provider_search" ∷ "raw_download" ∷ "prepare_scene" ∷ "scene_validation" ∷ "object_storage"
    ∷ "pgstac_registration" ∷ "cleanup" ∷ []

-- `EOS04_MODE_LIMIT`
abbrev pub mode_limit : Mode → Option String
mode_limit metadata_only = some "provider_search"
mode_limit download_only = some "raw_download"
mode_limit prepare_only = some "scene_validation"
mode_limit full_pipeline = some "cleanup"
mode_limit mirror_only = none
mode_limit composite_only = none

-- `names.index(name)`; every name that the service looks for is there.
abbrev pub index_of : String → List String → ℕ
index_of name [] = 0
index_of name (n ∷ names) = if n == name then 0 else 1 + index_of name names
