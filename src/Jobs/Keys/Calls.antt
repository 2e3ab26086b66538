-- ===== src/Jobs/Keys/Calls.antt =====
-- A call of one of the key functions as a value.
use akasha_ingestion.Base.{List, String}
use akasha_ingestion.Base.Dict.{Dict}
use akasha_ingestion.Jobs.Keys.Defs.{
  compute_sync_idempotency_key, compute_backfill_idempotency_key, compute_scene_idempotency_key,
  compute_asset_mirror_idempotency_key, compute_index_output_idempotency_key,
  compute_resourcesat_backfill_idempotency_key, compute_resourcesat_download_idempotency_key,
  compute_resourcesat_prepare_idempotency_key, compute_resourcesat_composite_idempotency_key,
  compute_resourcesat_index_output_idempotency_key, compute_eos04_backfill_idempotency_key,
  compute_nisar_backfill_idempotency_key,
}

pub data KeyCall : Type 0 where
  sync_call :
      (source_id aoi_id date_start date_end job_type request_params_version
        processing_profile_version : String)
      → KeyCall
  backfill_call :
      (source_id provider_route aoi_id date_start date_end mode request_params_version
        processing_profile_version : String)
      → KeyCall
  scene_call :
      (source_id provider_route aoi_id stac_item_id logical_scene_key request_params_version
        processing_profile_version : String)
      → KeyCall
  asset_mirror_call :
      (source_id provider_route stac_item_id asset_key request_params_version
        processing_profile_version : String)
      → KeyCall
  index_output_call :
      (source_id provider_route stac_item_id index_name formula_version request_params_version
        processing_profile_version : String)
      → KeyCall
  resourcesat_backfill_call :
      (source_id provider_route aoi_id date_start date_end mode request_params_version
        processing_profile_version : String)
      → KeyCall
  resourcesat_download_call :
      (source_id provider_route product_id request_params_version
        processing_profile_version : String)
      → KeyCall
  resourcesat_prepare_call :
      (source_id provider_route product_id raw_checksum_sha256 request_params_version
        processing_profile_version : String)
      → KeyCall
  resourcesat_composite_call :
      (source_id aoi_id composite_date : String) (product_ids : List String)
      (request_params_version processing_profile_version : String)
      → KeyCall
  resourcesat_index_output_call :
      (source_id provider_route scene_or_composite_id index_name formula_version
        request_params_version processing_profile_version : String)
      → KeyCall
  eos04_backfill_call :
      (source_id provider_route aoi_id date_start date_end mode request_params_version
        processing_profile_version : String)
      → KeyCall
  nisar_backfill_call :
      (source_id provider_route aoi_id date_start date_end mode request_params_version
        processing_profile_version : String)
      → KeyCall

module _ {A : Type 0} (digest : Dict String String → A) where
  unfoldable pub key : KeyCall → A
  key (sync_call source_id aoi_id date_start date_end job_type params profile) =
      compute_sync_idempotency_key digest source_id aoi_id date_start date_end job_type params
        profile
  key (backfill_call source_id provider_route aoi_id date_start date_end mode params profile) =
      compute_backfill_idempotency_key digest source_id provider_route aoi_id date_start date_end
        mode params profile
  key (scene_call source_id provider_route aoi_id stac_item_id logical_scene_key params profile) =
      compute_scene_idempotency_key digest source_id provider_route aoi_id stac_item_id
        logical_scene_key params profile
  key (asset_mirror_call source_id provider_route stac_item_id asset_key params profile) =
      compute_asset_mirror_idempotency_key digest source_id provider_route stac_item_id asset_key
        params profile
  key
        (index_output_call source_id provider_route stac_item_id index_name formula_version params
          profile) =
      compute_index_output_idempotency_key digest source_id provider_route stac_item_id index_name
        formula_version params profile
  key
        (resourcesat_backfill_call source_id provider_route aoi_id date_start date_end mode params
          profile) =
      compute_resourcesat_backfill_idempotency_key digest source_id provider_route aoi_id date_start
        date_end mode params profile
  key (resourcesat_download_call source_id provider_route product_id params profile) =
      compute_resourcesat_download_idempotency_key digest source_id provider_route product_id params
        profile
  key
        (resourcesat_prepare_call source_id provider_route product_id raw_checksum_sha256 params
          profile) =
      compute_resourcesat_prepare_idempotency_key digest source_id provider_route product_id
        raw_checksum_sha256 params profile
  key (resourcesat_composite_call source_id aoi_id composite_date product_ids params profile) =
      compute_resourcesat_composite_idempotency_key digest source_id aoi_id composite_date
        product_ids params profile
  key
        (resourcesat_index_output_call source_id provider_route scene_or_composite_id index_name
          formula_version params profile) =
      compute_resourcesat_index_output_idempotency_key digest source_id provider_route
        scene_or_composite_id index_name formula_version params profile
  key
        (eos04_backfill_call source_id provider_route aoi_id date_start date_end mode params
          profile) =
      compute_eos04_backfill_idempotency_key digest source_id provider_route aoi_id date_start
        date_end mode params profile
  key
        (nisar_backfill_call source_id provider_route aoi_id date_start date_end mode params
          profile) =
      compute_nisar_backfill_idempotency_key digest source_id provider_route aoi_id date_start
        date_end mode params profile
