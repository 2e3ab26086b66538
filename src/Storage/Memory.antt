-- ===== src/Storage/Memory.antt =====
-- `InMemoryObjectStore`: a dict of bytes. `sha256(...).hexdigest()`, `dumps` and `loads`, and
-- `str.lower` are arguments; a file is given by its bytes.
use akasha_ingestion.Base.{
  ℕ, Bool, Option, none, some, List, String, ◌==◌, string_eq, length, is_some, if◌then◌else◌,
}
use akasha_ingestion.Base.Dict.{Dict, lookup, insert}
use akasha_ingestion.Base.Text.{codes, utf8}
use akasha_ingestion.Storage.Paths.{
  raw_package_path, raw_checksum_path, raw_file_path, stac_item_path, asset_manifest_path,
  source_cog_path, prepared_cog_path, derived_cog_path, composite_cog_path, composite_manifest_path,
  digest_path,
}

abbrev pub Bytes : Type 0
Bytes = List ℕ

abbrev pub Objects : Type 0
Objects = Dict String Bytes

-- What a call returns, or the path of the `ObjectStoreNotFoundError`.
pub data Found {ℓ} (A : Type ℓ) : Type ℓ where
  found : A → Found A
  not_found : String → Found A

pub record ObjectStat : Type 0 where
  pub object_path : String
  pub size_bytes : ℕ

unfoldable pub get : String → Objects → Option Bytes
get object_path s = lookup object_path s

abbrev pub required : String → Option Bytes → Found Bytes
required object_path none = not_found object_path
required object_path (some payload) = found payload

unfoldable pub get_required : String → Objects → Found Bytes
unfolding get
get_required object_path s = required object_path (get object_path s)

unfoldable pub raster_source : String → Objects → Found Bytes
unfolding get_required
raster_source object_path s = get_required object_path s

unfoldable pub exists : String → Objects → Bool
exists object_path s = is_some (lookup object_path s)

abbrev pub stat_found : String → Option Bytes → Found ObjectStat
stat_found object_path none = not_found object_path
stat_found object_path (some payload) =
    found (record { object_path = object_path; size_bytes = length payload })

unfoldable pub stat : String → Objects → Found ObjectStat
stat object_path s = stat_found object_path (lookup object_path s)

module _ (sha256 : Bytes → String) where
  -- An object, and its checksum beside it.
  abbrev pub put_with : String → Bytes → String → Objects → (String × String) × Objects
  put_with object_path payload checksum s = (
    (object_path, checksum),
    insert (digest_path object_path) (utf8 (codes checksum)) (insert object_path payload s),
  )

  unfoldable pub put_bytes : String → Bytes → Objects → (String × String) × Objects
  put_bytes object_path payload s = put_with object_path payload (sha256 payload) s

  -- `checksum_sha256 or sha256(payload).hexdigest()`
  abbrev pub checksum_or : Option String → Bytes → String
  checksum_or none payload = sha256 payload
  checksum_or (some checksum) payload = if checksum == "" then sha256 payload else checksum

  unfoldable pub put_file : String → Bytes → Option String → Objects → (String × String) × Objects
  put_file object_path payload checksum s =
      put_with object_path payload (checksum_or checksum payload) s

  unfoldable pub put_raw_package :
      String → String → String → Bytes → Objects → (String × String) × Objects
  put_raw_package provider source_id product_id payload s = (
    (raw_package_path provider source_id product_id, sha256 payload),
    insert (raw_checksum_path provider source_id product_id) (utf8 (codes (sha256 payload)))
        (insert (raw_package_path provider source_id product_id) payload s),
  )

  unfoldable pub put_raw_file :
      String → String → String → Bytes → Option String → Objects → (String × String) × Objects
  put_raw_file provider source_id product_id payload checksum s =
      put_file (raw_file_path provider source_id product_id) payload checksum s

  unfoldable pub put_source_cog :
      String → String → String → String → Bytes → Objects → (String × String) × Objects
  put_source_cog provider source_id stac_item_id asset_key payload s =
      put_bytes (source_cog_path provider source_id stac_item_id asset_key) payload s

  unfoldable pub put_source_cog_file :
      String → String → String → String → Bytes → String → Objects → (String × String) × Objects
  put_source_cog_file provider source_id stac_item_id asset_key payload checksum s =
      put_file (source_cog_path provider source_id stac_item_id asset_key) payload (some checksum) s

  unfoldable pub put_prepared_cog_file :
      String → String → String → String → Bytes → String → Objects → (String × String) × Objects
  put_prepared_cog_file provider source_id product_id asset_key payload checksum s =
      put_file (prepared_cog_path provider source_id product_id asset_key) payload (some checksum) s

  unfoldable pub put_composite_cog_file :
      String → String → String → String → Bytes → String → Objects → (String × String) × Objects
  put_composite_cog_file source_id aoi_id composite_date asset_key payload checksum s =
      put_file (composite_cog_path source_id aoi_id composite_date asset_key) payload
        (some checksum) s

  module _ (lower : String → String) where
    unfoldable pub put_derived_cog :
        String → String → String → String → Bytes → Objects → (String × String) × Objects
    put_derived_cog provider source_id stac_item_id index_name payload s =
        put_bytes (derived_cog_path provider source_id stac_item_id (lower index_name)) payload s

    unfoldable pub put_derived_cog_file :
        String → String → String → String → Bytes → String → Objects → (String × String) × Objects
    put_derived_cog_file provider source_id stac_item_id index_name payload checksum s =
        put_file (derived_cog_path provider source_id stac_item_id (lower index_name)) payload
          (some checksum) s

  module _ {J : Type 0} (dumps : J → Bytes) (loads : Bytes → J) where
    unfoldable pub put_json : String → J → Objects → (String × String) × Objects
    unfolding put_bytes
    put_json object_path payload s = put_bytes object_path (dumps payload) s

    abbrev pub loaded : Found Bytes → Found J
    loaded (found payload) = found (loads payload)
    loaded (not_found object_path) = not_found object_path

    unfoldable pub get_json : String → Objects → Found J
    unfolding get_required
    get_json object_path s = loaded (get_required object_path s)

    unfoldable pub put_stac_item :
        String → String → String → J → Objects → (String × String) × Objects
    unfolding put_json
    put_stac_item provider source_id stac_item_id item s =
        put_json (stac_item_path provider source_id stac_item_id) item s

    unfoldable pub put_asset_manifest :
        String → String → String → J → Objects → (String × String) × Objects
    unfolding put_json
    put_asset_manifest provider source_id stac_item_id manifest s =
        put_json (asset_manifest_path provider source_id stac_item_id) manifest s

    unfoldable pub put_composite_manifest :
        String → String → String → J → Objects → (String × String) × Objects
    unfolding put_json
    put_composite_manifest source_id aoi_id composite_date manifest s =
        put_json (composite_manifest_path source_id aoi_id composite_date) manifest s
