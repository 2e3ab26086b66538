-- ===== src/Jobs/Keys/Defs.antt =====
-- The functions of idempotency.py: each lists what a job is made of in a dict, and the key is the
-- digest of the dict's items in the order of their names. The digest, `sha256` of compact JSON, is a
-- parameter with a result of any type.
use akasha_ingestion.Base.{Bool, not, List, [], ◌∷◌, String, text_lt}
use akasha_ingestion.Base.Dict.{Dict}
use akasha_ingestion.Base.Sort.{sort_by}
use Prim.Native.String.{◌++◌}

-- `sep.join(parts)`
abbrev pub join : String → List String → String
join sep [] = ""
join sep (part ∷ []) = part
join sep (part ∷ more ∷ parts) = part ++ sep ++ join sep (more ∷ parts)

abbrev pub text_le : String → String → Bool
text_le a b = not (text_lt b a)

-- `sort_keys=True`
abbrev pub by_name : Dict String String → Dict String String
by_name items = sort_by (λ p q. text_le p.0 q.0) items

module _ {A : Type 0} (digest : Dict String String → A) where
  abbrev pub hash_material : Dict String String → A
  hash_material material = digest (by_name material)

  unfoldable pub compute_sync_idempotency_key :
      String → String → String → String → String → String → String → A
  unfolding text_lt
  compute_sync_idempotency_key source_id aoi_id date_start date_end job_type request_params_version
        processing_profile_version =
      hash_material (
        ("source_id", source_id)
        ∷ ("aoi_id", aoi_id)
        ∷ ("date_start", date_start)
        ∷ ("date_end", date_end)
        ∷ ("job_type", job_type)
        ∷ ("request_params_version", request_params_version)
        ∷ ("processing_profile_version", processing_profile_version)
        ∷ [])

  unfoldable pub compute_backfill_idempotency_key :
      String → String → String → String → String → String → String → String → A
  unfolding text_lt
  compute_backfill_idempotency_key source_id provider_route aoi_id date_start date_end mode
        request_params_version processing_profile_version =
      hash_material (
        ("job_type", "sentinel2_backfill")
        ∷ ("source_id", source_id)
        ∷ ("provider_route", provider_route)
        ∷ ("aoi_id", aoi_id)
        ∷ ("date_start", date_start)
        ∷ ("date_end", date_end)
        ∷ ("mode", mode)
        ∷ ("request_params_version", request_params_version)
        ∷ ("processing_profile_version", processing_profile_version)
        ∷ [])

  unfoldable pub compute_scene_idempotency_key :
      String → String → String → String → String → String → String → A
  unfolding text_lt
  compute_scene_idempotency_key source_id provider_route aoi_id stac_item_id logical_scene_key
        request_params_version processing_profile_version =
      hash_material (
        ("job_type", "sentinel2_scene")
        ∷ ("source_id", source_id)
        ∷ ("provider_route", provider_route)
        ∷ ("aoi_id", aoi_id)
        ∷ ("stac_item_id", stac_item_id)
        ∷ ("logical_scene_key", logical_scene_key)
        ∷ ("request_params_version", request_params_version)
        ∷ ("processing_profile_version", processing_profile_version)
        ∷ [])

  unfoldable pub compute_asset_mirror_idempotency_key :
      String → String → String → String → String → String → A
  unfolding text_lt
  compute_asset_mirror_idempotency_key source_id provider_route stac_item_id asset_key
        request_params_version processing_profile_version =
      hash_material (
        ("job_type", "source_asset_mirror")
        ∷ ("source_id", source_id)
        ∷ ("provider_route", provider_route)
        ∷ ("stac_item_id", stac_item_id)
        ∷ ("asset_key", asset_key)
        ∷ ("request_params_version", request_params_version)
        ∷ ("processing_profile_version", processing_profile_version)
        ∷ [])

  unfoldable pub compute_index_output_idempotency_key :
      String → String → String → String → String → String → String → A
  unfolding text_lt
  compute_index_output_idempotency_key source_id provider_route stac_item_id index_name
        formula_version request_params_version processing_profile_version =
      hash_material (
        ("job_type", "sentinel2_index_output")
        ∷ ("source_id", source_id)
        ∷ ("provider_route", provider_route)
        ∷ ("stac_item_id", stac_item_id)
        ∷ ("index_name", index_name)
        ∷ ("formula_version", formula_version)
        ∷ ("request_params_version", request_params_version)
        ∷ ("processing_profile_version", processing_profile_version)
        ∷ [])

  unfoldable pub compute_resourcesat_backfill_idempotency_key :
      String → String → String → String → String → String → String → String → A
  unfolding text_lt
  compute_resourcesat_backfill_idempotency_key source_id provider_route aoi_id date_start date_end
        mode request_params_version processing_profile_version =
      hash_material (
        ("job_type", "resourcesat_backfill")
        ∷ ("source_id", source_id)
        ∷ ("provider_route", provider_route)
        ∷ ("aoi_id", aoi_id)
        ∷ ("date_start", date_start)
        ∷ ("date_end", date_end)
        ∷ ("mode", mode)
        ∷ ("request_params_version", request_params_version)
        ∷ ("processing_profile_version", processing_profile_version)
        ∷ [])

  unfoldable pub compute_resourcesat_download_idempotency_key :
      String → String → String → String → String → A
  unfolding text_lt
  compute_resourcesat_download_idempotency_key source_id provider_route product_id
        request_params_version processing_profile_version =
      hash_material (
        ("job_type", "resourcesat_download")
        ∷ ("source_id", source_id)
        ∷ ("provider_route", provider_route)
        ∷ ("product_id", product_id)
        ∷ ("request_params_version", request_params_version)
        ∷ ("processing_profile_version", processing_profile_version)
        ∷ [])

  unfoldable pub compute_resourcesat_prepare_idempotency_key :
      String → String → String → String → String → String → A
  unfolding text_lt
  compute_resourcesat_prepare_idempotency_key source_id provider_route product_id
        raw_checksum_sha256 request_params_version processing_profile_version =
      hash_material (
        ("job_type", "resourcesat_prepare")
        ∷ ("source_id", source_id)
        ∷ ("provider_route", provider_route)
        ∷ ("product_id", product_id)
        ∷ ("raw_checksum_sha256", raw_checksum_sha256)
        ∷ ("request_params_version", request_params_version)
        ∷ ("processing_profile_version", processing_profile_version)
        ∷ [])

  unfoldable pub compute_resourcesat_composite_idempotency_key :
      String → String → String → List String → String → String → A
  unfolding text_lt
  compute_resourcesat_composite_idempotency_key source_id aoi_id composite_date product_ids
        request_params_version processing_profile_version =
      hash_material (
        ("job_type", "resourcesat_composite")
        ∷ ("source_id", source_id)
        ∷ ("aoi_id", aoi_id)
        ∷ ("composite_date", composite_date)
        ∷ ("product_ids", join "," (sort_by text_le product_ids))
        ∷ ("request_params_version", request_params_version)
        ∷ ("processing_profile_version", processing_profile_version)
        ∷ [])

  unfoldable pub compute_resourcesat_index_output_idempotency_key :
      String → String → String → String → String → String → String → A
  unfolding text_lt
  compute_resourcesat_index_output_idempotency_key source_id provider_route scene_or_composite_id
        index_name formula_version request_params_version processing_profile_version =
      hash_material (
        ("job_type", "resourcesat_index_output")
        ∷ ("source_id", source_id)
        ∷ ("provider_route", provider_route)
        ∷ ("scene_or_composite_id", scene_or_composite_id)
        ∷ ("index_name", index_name)
        ∷ ("formula_version", formula_version)
        ∷ ("request_params_version", request_params_version)
        ∷ ("processing_profile_version", processing_profile_version)
        ∷ [])

  unfoldable pub compute_eos04_backfill_idempotency_key :
      String → String → String → String → String → String → String → String → A
  unfolding text_lt
  compute_eos04_backfill_idempotency_key source_id provider_route aoi_id date_start date_end mode
        request_params_version processing_profile_version =
      hash_material (
        ("job_type", "eos04_backfill")
        ∷ ("source_id", source_id)
        ∷ ("provider_route", provider_route)
        ∷ ("aoi_id", aoi_id)
        ∷ ("date_start", date_start)
        ∷ ("date_end", date_end)
        ∷ ("mode", mode)
        ∷ ("request_params_version", request_params_version)
        ∷ ("processing_profile_version", processing_profile_version)
        ∷ [])

  unfoldable pub compute_nisar_backfill_idempotency_key :
      String → String → String → String → String → String → String → String → A
  unfolding text_lt
  compute_nisar_backfill_idempotency_key source_id provider_route aoi_id date_start date_end mode
        request_params_version processing_profile_version =
      hash_material (
        ("job_type", "nisar_backfill")
        ∷ ("source_id", source_id)
        ∷ ("provider_route", provider_route)
        ∷ ("aoi_id", aoi_id)
        ∷ ("date_start", date_start)
        ∷ ("date_end", date_end)
        ∷ ("mode", mode)
        ∷ ("request_params_version", request_params_version)
        ∷ ("processing_profile_version", processing_profile_version)
        ∷ [])
