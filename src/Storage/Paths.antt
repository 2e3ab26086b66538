-- ===== src/Storage/Paths.antt =====
-- Where the object store puts things: the paths that its methods build.
use akasha_ingestion.Base.{String}
use Prim.Native.String.{◌++◌}

module _ (provider source_id product_id : String) where
  abbrev pub raw_folder : String
  raw_folder = "raw/" ++ provider ++ "/" ++ source_id ++ "/" ++ product_id ++ "/"

  abbrev pub raw_package_path : String
  raw_package_path = raw_folder ++ "original.mock"

  abbrev pub raw_checksum_path : String
  raw_checksum_path = raw_folder ++ "checksum.sha256"

  abbrev pub raw_file_path : String
  raw_file_path = raw_folder ++ "original.zip"

  abbrev pub stac_item_path : String
  stac_item_path = raw_folder ++ "stac-item.json"

  abbrev pub asset_manifest_path : String
  asset_manifest_path = raw_folder ++ "asset-manifest.json"

  abbrev pub source_cog_path : String → String
  source_cog_path asset_key = raw_folder ++ "source-cogs/" ++ asset_key ++ ".tif"

  -- of source_mirroring.py
  abbrev pub source_metadata_path : String → String
  source_metadata_path asset_key = raw_folder ++ "source-cogs/" ++ asset_key ++ ".metadata.json"

  abbrev pub prepared_cog_path : String → String
  prepared_cog_path asset_key =
      "prepared/" ++ provider ++ "/" ++ source_id ++ "/" ++ product_id ++ "/" ++ asset_key
      ++ ".cog.tif"

  -- `lower_name` is `index_name.lower()`.
  abbrev pub derived_cog_path : String → String
  derived_cog_path lower_name =
      "indices/" ++ provider ++ "/" ++ source_id ++ "/" ++ product_id ++ "/" ++ lower_name
      ++ ".cog.tif"

module _ (source_id aoi_id composite_date : String) where
  abbrev pub composite_folder : String
  composite_folder = "composite/" ++ source_id ++ "/" ++ aoi_id ++ "/" ++ composite_date ++ "/"

  abbrev pub composite_cog_path : String → String
  composite_cog_path asset_key = composite_folder ++ asset_key ++ ".tif"

  abbrev pub composite_manifest_path : String
  composite_manifest_path = composite_folder ++ "manifest.json"

abbrev pub digest_path : String → String
digest_path object_path = object_path ++ ".sha256"
