-- ===== src/Processing/Comparability/Tests.antt =====
-- Two observations, and the theorems about them.
use akasha_ingestion.Base.{ℕ, true, some, none, [], ◌∷◌, String, ◌≡◌, ◌↔◌, refl}
use akasha_ingestion.Processing.Comparability.Metadata.{ComparisonMetadata, missing, complete}
use akasha_ingestion.Processing.Comparability.Reasons.{
  KeyFields, comparison_reason_codes, comparison_key_hash,
}
use akasha_ingestion.Processing.Comparability.Agreement.{
  IsComparable, comparison_reason_codes-IsComparable, same_key-comparable,
}

abbrev seen_at : ℕ → String → ComparisonMetadata
seen_at angle start = record {
  policy_version = "eos04-comparability-v1";
  platform = some "EOS-04";
  sensor = some "SAR";
  frequency_band = "C";
  instrument_mode = some "MRS";
  product_type = some "L2B";
  processing_level = none;
  processing_profile_version = "p";
  provider_software_version = some "1";
  calibration_formula = "f";
  output_scale = "db";
  rtc_applied = some true;
  dem_correction = some true;
  dem_source = some "DEM";
  polarizations = "HH" ∷ [];
  sensor_orientation = some "R";
  orbit_state = some "ASCENDING";
  orbit_state_source = some "provider_pass_type";
  scene_number = some 7;
  incidence_angle = some angle;
  pixel_spacing = 5;
  acquisition_start = some start;
  acquisition_end = some "end";
}

far_apart :
    comparison_reason_codes 10 10 (seen_at 30 "a") (seen_at 50 "b")
    ≡ "INCIDENCE_ANGLE_MISMATCH" ∷ []
unfolding comparison_reason_codes complete missing
far_apart = refl

comparison_reason_codes-IsComparable_example :
    (comparison_reason_codes 10 10 (seen_at 30 "a") (seen_at 35 "b") ≡ [])
    ↔ IsComparable 10 10 (seen_at 30 "a") (seen_at 35 "b")
comparison_reason_codes-IsComparable_example =
    comparison_reason_codes-IsComparable 10 10 (seen_at 30 "a") (seen_at 35 "b")

abbrev whole : KeyFields → KeyFields
whole k = k

same_key-comparable_example : comparison_reason_codes 10 10 (seen_at 30 "a") (seen_at 30 "b") ≡ []
unfolding comparison_key_hash complete missing
same_key-comparable_example =
    same_key-comparable whole (λ k l e. e) 10 10 (seen_at 30 "a") (seen_at 30 "b") refl refl refl
