-- ===== src/Jobs/Keys/Separation.antt =====
-- Keys tell jobs apart.
use akasha_ingestion.Base.{
  Option, none, some, [], ◌∷◌, String, ◌≡◌, refl, sym, ◌∙◌, ap, if◌then◌else◌, ◌==◌, string_eq,
  text_lt,
}
use akasha_ingestion.Base.Dict.{Dict, lookup}
use akasha_ingestion.Base.Sort.{sort_by}
use akasha_ingestion.Jobs.Keys.Defs.{
  text_le, join, compute_sync_idempotency_key, compute_backfill_idempotency_key,
  compute_scene_idempotency_key, compute_asset_mirror_idempotency_key,
  compute_index_output_idempotency_key, compute_resourcesat_backfill_idempotency_key,
  compute_resourcesat_download_idempotency_key, compute_resourcesat_prepare_idempotency_key,
  compute_resourcesat_composite_idempotency_key, compute_resourcesat_index_output_idempotency_key,
  compute_eos04_backfill_idempotency_key, compute_nisar_backfill_idempotency_key,
}
use akasha_ingestion.Jobs.Keys.Calls.{
  KeyCall, key, sync_call, backfill_call, scene_call, asset_mirror_call, index_output_call,
  resourcesat_backfill_call, resourcesat_download_call, resourcesat_prepare_call,
  resourcesat_composite_call, resourcesat_index_output_call, eos04_backfill_call,
  nisar_backfill_call,
}

-- A call with the text of a composite's products in place of the list: their ids are sorted and joined
-- by commas.
unfoldable pub canonical : KeyCall → KeyCall
unfolding text_lt
canonical (resourcesat_composite_call source_id aoi_id composite_date product_ids params profile) =
    resourcesat_composite_call source_id aoi_id composite_date
      (join "," (sort_by text_le product_ids) ∷ []) params profile
canonical call = call

-- The call that a dict comes from, read back from its items.
abbrev or_none : Option String → String
or_none none = ""
or_none (some v) = v

abbrev at : String → Dict String String → String
at name items = or_none (lookup name items)

abbrev read_kind : String → Dict String String → KeyCall
read_kind kind m =
    if kind == "sentinel2_backfill"
    then backfill_call (at "source_id" m) (at "provider_route" m) (at "aoi_id" m)
        (at "date_start" m) (at "date_end" m) (at "mode" m) (at "request_params_version" m)
        (at "processing_profile_version" m)
    else if kind == "sentinel2_scene"
    then scene_call (at "source_id" m) (at "provider_route" m) (at "aoi_id" m) (at "stac_item_id" m)
        (at "logical_scene_key" m) (at "request_params_version" m)
        (at "processing_profile_version" m)
    else if kind == "source_asset_mirror"
    then asset_mirror_call (at "source_id" m) (at "provider_route" m) (at "stac_item_id" m)
        (at "asset_key" m) (at "request_params_version" m) (at "processing_profile_version" m)
    else if kind == "sentinel2_index_output"
    then index_output_call (at "source_id" m) (at "provider_route" m) (at "stac_item_id" m)
        (at "index_name" m) (at "formula_version" m) (at "request_params_version" m)
        (at "processing_profile_version" m)
    else if kind == "resourcesat_backfill"
    then resourcesat_backfill_call (at "source_id" m) (at "provider_route" m) (at "aoi_id" m)
        (at "date_start" m) (at "date_end" m) (at "mode" m) (at "request_params_version" m)
        (at "processing_profile_version" m)
    else if kind == "resourcesat_download"
    then resourcesat_download_call (at "source_id" m) (at "provider_route" m) (at "product_id" m)
        (at "request_params_version" m) (at "processing_profile_version" m)
    else if kind == "resourcesat_prepare"
    then resourcesat_prepare_call (at "source_id" m) (at "provider_route" m) (at "product_id" m)
        (at "raw_checksum_sha256" m) (at "request_params_version" m)
        (at "processing_profile_version" m)
    else if kind == "resourcesat_index_output"
    then resourcesat_index_output_call (at "source_id" m) (at "provider_route" m)
        (at "scene_or_composite_id" m) (at "index_name" m) (at "formula_version" m)
        (at "request_params_version" m) (at "processing_profile_version" m)
    else if kind == "eos04_backfill"
    then eos04_backfill_call (at "source_id" m) (at "provider_route" m) (at "aoi_id" m)
        (at "date_start" m) (at "date_end" m) (at "mode" m) (at "request_params_version" m)
        (at "processing_profile_version" m)
    else nisar_backfill_call (at "source_id" m) (at "provider_route" m) (at "aoi_id" m)
        (at "date_start" m) (at "date_end" m) (at "mode" m) (at "request_params_version" m)
        (at "processing_profile_version" m)

abbrev read_route : Option String → Dict String String → KeyCall
read_route none m =
    sync_call (at "source_id" m) (at "aoi_id" m) (at "date_start" m) (at "date_end" m)
      (at "job_type" m) (at "request_params_version" m) (at "processing_profile_version" m)
read_route (some route) m = read_kind (at "job_type" m) m

abbrev read_date : Option String → Dict String String → KeyCall
read_date none m = read_route (lookup "provider_route" m) m
read_date (some date) m =
    resourcesat_composite_call (at "source_id" m) (at "aoi_id" m) (at "composite_date" m)
      ((at "product_ids" m) ∷ []) (at "request_params_version" m)
      (at "processing_profile_version" m)

abbrev read : Dict String String → KeyCall
read m = read_date (lookup "composite_date" m) m

abbrev same : Dict String String → Dict String String
same m = m

read-key : (call : KeyCall) → read (key same call) ≡ canonical call
unfolding key canonical text_lt compute_sync_idempotency_key compute_backfill_idempotency_key
    compute_scene_idempotency_key compute_asset_mirror_idempotency_key
    compute_index_output_idempotency_key compute_resourcesat_backfill_idempotency_key
    compute_resourcesat_download_idempotency_key compute_resourcesat_prepare_idempotency_key
    compute_resourcesat_composite_idempotency_key compute_resourcesat_index_output_idempotency_key
    compute_eos04_backfill_idempotency_key compute_nisar_backfill_idempotency_key
read-key (sync_call source_id aoi_id date_start date_end job_type params profile) = refl
read-key (backfill_call source_id provider_route aoi_id date_start date_end mode params profile) =
    refl
read-key
      (scene_call source_id provider_route aoi_id stac_item_id logical_scene_key params profile) =
    refl
read-key (asset_mirror_call source_id provider_route stac_item_id asset_key params profile) = refl
read-key
      (index_output_call source_id provider_route stac_item_id index_name formula_version params
        profile) =
    refl
read-key
      (resourcesat_backfill_call source_id provider_route aoi_id date_start date_end mode params
        profile) =
    refl
read-key (resourcesat_download_call source_id provider_route product_id params profile) = refl
read-key
      (resourcesat_prepare_call source_id provider_route product_id raw_checksum_sha256 params
        profile) =
    refl
read-key (resourcesat_composite_call source_id aoi_id composite_date product_ids params profile) =
    refl
read-key
      (resourcesat_index_output_call source_id provider_route scene_or_composite_id index_name
        formula_version params profile) =
    refl
read-key
      (eos04_backfill_call source_id provider_route aoi_id date_start date_end mode params
        profile) =
    refl
read-key
      (nisar_backfill_call source_id provider_route aoi_id date_start date_end mode params
        profile) =
    refl

module _ {A : Type 0} (digest : Dict String String → A) where
  digest-key : (call : KeyCall) → key digest call ≡ digest (key same call)
  unfolding key compute_sync_idempotency_key compute_backfill_idempotency_key
      compute_scene_idempotency_key compute_asset_mirror_idempotency_key
      compute_index_output_idempotency_key compute_resourcesat_backfill_idempotency_key
      compute_resourcesat_download_idempotency_key compute_resourcesat_prepare_idempotency_key
      compute_resourcesat_composite_idempotency_key compute_resourcesat_index_output_idempotency_key
      compute_eos04_backfill_idempotency_key compute_nisar_backfill_idempotency_key
  digest-key (sync_call source_id aoi_id date_start date_end job_type params profile) = refl
  digest-key
        (backfill_call source_id provider_route aoi_id date_start date_end mode params profile) =
      refl
  digest-key
        (scene_call source_id provider_route aoi_id stac_item_id logical_scene_key params profile) =
      refl
  digest-key (asset_mirror_call source_id provider_route stac_item_id asset_key params profile) =
      refl
  digest-key
        (index_output_call source_id provider_route stac_item_id index_name formula_version params
          profile) =
      refl
  digest-key
        (resourcesat_backfill_call source_id provider_route aoi_id date_start date_end mode params
          profile) =
      refl
  digest-key (resourcesat_download_call source_id provider_route product_id params profile) = refl
  digest-key
        (resourcesat_prepare_call source_id provider_route product_id raw_checksum_sha256 params
          profile) =
      refl
  digest-key
        (resourcesat_composite_call source_id aoi_id composite_date product_ids params profile) =
      refl
  digest-key
        (resourcesat_index_output_call source_id provider_route scene_or_composite_id index_name
          formula_version params profile) =
      refl
  digest-key
        (eos04_backfill_call source_id provider_route aoi_id date_start date_end mode params
          profile) =
      refl
  digest-key
        (nisar_backfill_call source_id provider_route aoi_id date_start date_end mode params
          profile) =
      refl

  -- If the digest of no two dicts is the same, then calls with the same key are calls of the same
  -- function, with the same value of each argument but the products of a composite, of which the
  -- text of their sorted ids, joined by commas, is the same: keys of different kinds of job never
  -- meet. Lists of products whose ids have commas may share that text.
  pub key-canonical :
      (call other : KeyCall)
      → ((m n : Dict String String) → digest m ≡ digest n → m ≡ n)
      → key digest call ≡ key digest other
      → canonical call ≡ canonical other
  key-canonical call other distinct e =
      sym (read-key call)
      ∙ ap read
          (distinct (key same call) (key same other) (sym (digest-key call) ∙ e ∙ digest-key other))
      ∙ read-key other
