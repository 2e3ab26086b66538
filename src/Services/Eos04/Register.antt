-- ===== src/Services/Eos04/Register.antt =====
-- `_store_and_register`, `_register_pgstac` and `_require_dependencies` of the EOS-04 service.
use akasha_ingestion.Base.{
  ℕ, not, ◌&&◌, ◌||◌, Option, none, some, List, [], ◌∷◌, String, if◌then◌else◌, ltb,
}
use akasha_ingestion.Base.Dict.{Dict}
use akasha_ingestion.Base.Json.{Value, bool, literal, text, texts}
use akasha_ingestion.Providers.Contracts.{Failure, Result, ok, raised}
use akasha_ingestion.Jobs.Store.{Job}
use akasha_ingestion.Schemas.{Mode}
use akasha_ingestion.Services.Staged.{Step, bind, done}
use akasha_ingestion.Services.Eos04.Records.{
  DownloadedProduct, PreparedScene, SceneRecord, AssetRecord, Settings, Operations, collection_id,
}
use akasha_ingestion.Services.Eos04.Parts.{
  source_id, provider_route, processing_profile_version, error, reaches, or_empty, media_type,
}
use Prim.Native.String.{◌++◌}

abbrev pub scene_metadata : PreparedScene → Dict String Value
scene_metadata p =
    ("provider_collection", text collection_id)
    ∷ ("polarizations", texts p.polarizations)
    ∷ ("processing_family", text "sar_backscatter")
    ∷ ("input_representation", p.manifest.input_representation)
    ∷ ("calibration_formula", p.manifest.calibration_formula)
    ∷ ("output_scale", text "db")
    ∷ ("bbox", p.bbox)
    ∷ ("comparison_metadata", p.manifest.comparison_metadata)
    ∷ ("comparison_key_hash", p.manifest.key_hash)
    ∷ []

abbrev pub asset_metadata : PreparedScene → Dict String Value
asset_metadata p =
    ("polarizations", texts p.polarizations)
    ∷ ("unit", text "dB")
    ∷ ("processing_profile_version", text processing_profile_version)
    ∷ ("calibration_formula", p.manifest.calibration_formula)
    ∷ ("rtc_applied", bool p.manifest.rtc_applied)
    ∷ ("comparison_policy_version", p.manifest.policy_version)
    ∷ ("comparison_key_hash", p.manifest.key_hash)
    ∷ ("bbox", p.bbox)
    ∷ ("geometry", p.geometry)
    ∷ ("crs", text p.crs)
    ∷ ("resolution", p.resolution)
    ∷ []

abbrev pub new_scene : Job → DownloadedProduct → PreparedScene → Option String → ℕ → SceneRecord
new_scene job d p route_id size = record {
  id = none;
  provider_adapter = "bhoonidhi";
  source_id = source_id;
  provider_product_id = p.product_id;
  acquisition_at = p.acquisition_at;
  scene_geometry = p.geometry;
  status = "accepted";
  license_state = "restricted";
  provider_metadata = scene_metadata p;
  aoi_id = job.aoi_id;
  provider_route_id = route_id;
  logical_scene_key = source_id ++ ":" ++ p.product_id;
  native_crs = p.crs;
  native_resolution = p.resolution;
  raw_object_path = d.object_path;
  file_size_bytes = size;
  pgstac_item_id = none;
}

abbrev pub new_asset : Settings → SceneRecord → PreparedScene → String → String → ℕ → AssetRecord
new_asset settings scene p object_path checksum size = record {
  scene_id = or_empty scene.id;
  asset_kind = "sar_backscatter";
  asset_key = "backscatter";
  object_path = object_path;
  asset_href = "s3://" ++ settings.minio_bucket ++ "/" ++ object_path;
  checksum_sha256 = checksum;
  size_bytes = size;
  storage_backend = "minio";
  nodata_value = literal "-9999.0";
  roles = "data" ∷ "backscatter" ∷ [];
  media_type = media_type;
  metadata = asset_metadata p;
}

module _ {E : Type 0} (ops : Operations E) (settings : Settings) where
  abbrev pub route_id : Step E (Option String)
  route_id e =
      if ops.has_route_repository
      then ops.get_by_route_key source_id provider_route e
      else (ok none, e)

  unfoldable pub store_and_register :
      Job → DownloadedProduct → PreparedScene → Step E (SceneRecord × AssetRecord)
  store_and_register job d p e =
      bind
        (ops.put_prepared_cog_file source_id p.product_id "backscatter" p.backscatter_path
          p.checksum_sha256 e)
        (λ stored e1. bind (route_id e1) (λ route e2. bind (ops.file_size d.path e2) (λ raw_size e3.
          bind (ops.upsert_scene (new_scene job d p route raw_size) e3) (λ scene e4.
            bind (ops.file_size p.backscatter_path e4) (λ size e5.
              bind (ops.upsert_asset (new_asset settings scene p stored.0 stored.1 size) e5)
                (λ asset. done (scene, asset)))))))

  abbrev pub publish : String × Value → Step E Unit
  publish item e = if ops.has_pgstac_repository then ops.upsert_item_json item e else (ok tt, e)

  abbrev pub register_built : SceneRecord → Result (String × Value) → Step E String
  register_built scene (raised f) e = (raised f, e)
  register_built scene (ok item) e =
      bind (ops.upsert_scene (record scene { pgstac_item_id = some item.0 }) e)
        (λ kept e1. bind (publish item e1) (λ published. done item.0))

  unfoldable pub register_pgstac : SceneRecord × AssetRecord → Step E String
  register_pgstac registered e =
      register_built registered.0 (ops.build_item registered.0 registered.1) e

  -- `zip(downloads, prepared, strict=True)`
  abbrev pub store_all :
      Job → List DownloadedProduct → List PreparedScene → Step E (List (SceneRecord × AssetRecord))
  store_all job [] [] e = (ok [], e)
  store_all job [] (p ∷ ps) e = (error "zip() argument 2 is longer than argument 1", e)
  store_all job (d ∷ ds) [] e = (error "zip() argument 2 is shorter than argument 1", e)
  store_all job (d ∷ ds) (p ∷ ps) e =
      bind (store_and_register job d p e)
        (λ first e1. bind (store_all job ds ps e1) (λ rest. done (first ∷ rest)))

  abbrev pub require_headroom : Mode → Result {0} Unit
  require_headroom mode =
      if ltb 0 settings.required_headroom_bytes
        && ltb ops.disk_free settings.required_headroom_bytes
      then error "insufficient EOS-04 disk headroom"
      else ok tt

  abbrev pub require_roots : Mode → Option Failure → Result {0} Unit
  require_roots mode (some f) = raised f
  require_roots mode none = require_headroom mode

  abbrev pub require_host : Mode → Result {0} Unit
  require_host mode =
      if settings.memory_runtime
      then ok tt
      else if settings.approved_runtime_required && not settings.approved_runtime
      then error "Bhoonidhi EOS-04 live jobs require approved runtime"
      else require_roots mode ops.runtime_roots

  abbrev pub require_parts : Mode → Result {0} Unit → Result {0} Unit
  require_parts mode (raised f) = raised f
  require_parts mode (ok done) =
      if reaches mode "raw_download" && not ops.has_object_store
      then error "EOS-04 download requires object storage"
      else if reaches mode "prepare_scene"
          && (not ops.has_scene_repository || not ops.has_asset_repository)
      then error "EOS-04 preparation requires scene and asset repositories"
      else ok tt

  unfoldable pub require_dependencies : Mode → Result {0} Unit
  unfolding reaches
  require_dependencies mode =
      if not ops.has_aoi_repository
      then error "EOS-04 backfill requires an AOI repository"
      else require_parts mode (require_host mode)
