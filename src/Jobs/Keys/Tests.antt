-- ===== src/Jobs/Keys/Tests.antt =====
-- Keys of concrete calls, with the dict itself for its digest.
use akasha_ingestion.Base.{[], ◌∷◌, String, ◌≡◌, refl, text_lt}
use akasha_ingestion.Base.Dict.{Dict}
use akasha_ingestion.Jobs.Keys.Defs.{
  compute_sync_idempotency_key, compute_resourcesat_composite_idempotency_key,
}
use akasha_ingestion.Jobs.Keys.Calls.{KeyCall, key, resourcesat_composite_call}
use akasha_ingestion.Jobs.Keys.Separation.{canonical, key-canonical}

abbrev itself : Dict String String → Dict String String
itself m = m

abbrev one_order : KeyCall
one_order =
    resourcesat_composite_call "resourcesat-2a-awifs-boa" "area" "2024-05-01" ("p2" ∷ "p1" ∷ [])
      "v1" "awifs-v1"

abbrev other_order : KeyCall
other_order =
    resourcesat_composite_call "resourcesat-2a-awifs-boa" "area" "2024-05-01" ("p1" ∷ "p2" ∷ [])
      "v1" "awifs-v1"

-- The material of a key is in the order of the names.
sync_material : compute_sync_idempotency_key itself "s" "a" "d1" "d2" "mock_sync" "v1" "v2" ≡ (
    ("aoi_id", "a")
    ∷ ("date_end", "d2")
    ∷ ("date_start", "d1")
    ∷ ("job_type", "mock_sync")
    ∷ ("processing_profile_version", "v2")
    ∷ ("request_params_version", "v1")
    ∷ ("source_id", "s")
    ∷ [])
unfolding compute_sync_idempotency_key text_lt
sync_material = refl

same_key : key itself one_order ≡ key itself other_order
unfolding key compute_resourcesat_composite_idempotency_key text_lt
same_key = refl

key-canonical_example : canonical one_order ≡ canonical other_order
key-canonical_example = key-canonical itself one_order other_order (λ m n e. e) same_key
