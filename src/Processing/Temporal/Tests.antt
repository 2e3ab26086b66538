-- ===== src/Processing/Temporal/Tests.antt =====
-- An observation with one comparable one before it and one from another orbit.
use akasha_ingestion.Base.{
  true, false, ℕ, Bool, Option, none, some, List, [], ◌∷◌, String, ◌≡◌, refl, arith,
}
use akasha_ingestion.Processing.Comparability.Metadata.{ComparisonMetadata, complete, missing}
use akasha_ingestion.Processing.Comparability.Reasons.{comparison_reason_codes}
use akasha_ingestion.Processing.Temporal.Baseline.{Stats, robust_deviation}
use akasha_ingestion.Processing.Temporal.Analysis.{
  Observation, Analysis, baseline, split_prior, build_sar_temporal_analysis, comparison_available,
  ComparisonStatus,
}
use akasha_ingestion.Processing.Temporal.Returned.{
  IsAnalysis, build_sar_temporal_analysis-IsAnalysis,
}

abbrev seen_at : ℕ → String → ComparisonMetadata
seen_at angle start = record {
  policy_version = "eos04-comparability-v1";
  platform = some "EOS-04";
  sensor = some "SAR";
  frequency_band = "C";
  instrument_mode = some "MRS";
  product_type = some "L2B";
  processing_level = none;
  processing_profile_version = "p";
  provider_software_version = some "1";
  calibration_formula = "f";
  output_scale = "db";
  rtc_applied = some true;
  dem_correction = some true;
  dem_source = some "DEM";
  polarizations = "HH" ∷ [];
  sensor_orientation = some "R";
  orbit_state = some "ASCENDING";
  orbit_state_source = some "provider_pass_type";
  scene_number = some 7;
  incidence_angle = some angle;
  pixel_spacing = 5;
  acquisition_start = some start;
  acquisition_end = some "end";
}

abbrev stats_of : ℕ → Stats
stats_of n = record {
  bands = record { polarization = "HH"; median = some n } ∷ [];
  features = ("HH_HV", n) ∷ [];
}

abbrev seen : String → ℕ → ℕ → Observation
seen date angle n = record {
  acquisition_date = date;
  metadata = seen_at angle date;
  stats = stats_of n;
}

abbrev prior : List Observation
prior = seen "2024-03-03" 31 20 ∷ seen "2024-02-02" 60 70 ∷ seen "2024-01-01" 29 50 ∷ []

abbrev any_order : String → String → Bool
any_order a b = true

abbrev is_available : ComparisonStatus → Bool
is_available comparison_available = true
is_available _ = false

abbrev status_and_counts : Option Analysis → Option (Bool × ℕ × ℕ)
status_and_counts none = none
status_and_counts (some a) =
    some (
      is_available a.comparison_status,
      a.comparable_observation_count,
      a.excluded_observation_count,
    )

analysis_of_prior :
    status_and_counts
      (build_sar_temporal_analysis 10 10 any_order 2 (seen_at 30 "now") (stats_of 90) prior)
    ≡ some (true, 3, 1)
unfolding build_sar_temporal_analysis baseline split_prior comparison_reason_codes complete missing
    robust_deviation
analysis_of_prior = refl

build_sar_temporal_analysis-IsAnalysis_example :
    (a : Analysis) × (build_sar_temporal_analysis 10 10 any_order 2
        (seen_at 30 "now")
        (stats_of 90)
        prior
      ≡ some a)
    × IsAnalysis 10 10 (seen_at 30 "now") prior a
build_sar_temporal_analysis-IsAnalysis_example =
    build_sar_temporal_analysis-IsAnalysis any_order 10 10 2 (seen_at 30 "now") (stats_of 90) prior
      (omega arith)
