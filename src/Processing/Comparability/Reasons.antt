-- ===== src/Processing/Comparability/Reasons.antt =====
-- `comparison_reason_codes` and `comparison_key_hash`.
use akasha_ingestion.Base.{
  ℕ, ◌-◌, Bool, true, false, not, ◌&&◌, ◌||◌, Option, some, List, [], ◌∷◌, String, if◌then◌else◌,
  ◌==◌, string_eq, nat_eq, bool_eq, option_eq, list_eq, ltb,
}
use akasha_ingestion.Processing.Comparability.Metadata.{ComparisonMetadata, complete}

-- `abs(a - b) > tolerance`
abbrev pub apart : ℕ → ℕ → ℕ → Bool
apart tolerance a b = ltb tolerance (a - b) || ltb tolerance (b - a)

-- In a complete record, the angle is there.
abbrev pub angles_apart : ℕ → Option ℕ → Option ℕ → Bool
angles_apart tolerance (some a) (some b) = apart tolerance a b
angles_apart tolerance _ _ = false

-- `if test: reasons.append(code)`, for one after the other
abbrev pub reasons_from : List (Bool × String) → List String
reasons_from [] = []
reasons_from ((true, code) ∷ tests) = code ∷ reasons_from tests
reasons_from ((false, code) ∷ tests) = reasons_from tests

-- The agreement in each of the fields of a code.
abbrev pub same_processing : ComparisonMetadata → ComparisonMetadata → Bool
same_processing a b =
    a.platform == b.platform
    && a.sensor == b.sensor
    && a.frequency_band == b.frequency_band
    && a.instrument_mode == b.instrument_mode
    && a.product_type == b.product_type
    && a.processing_level == b.processing_level
    && a.processing_profile_version == b.processing_profile_version
    && a.calibration_formula == b.calibration_formula
    && a.output_scale == b.output_scale

abbrev pub same_terrain : ComparisonMetadata → ComparisonMetadata → Bool
same_terrain a b =
    a.rtc_applied == b.rtc_applied
    && a.dem_correction == b.dem_correction
    && a.dem_source == b.dem_source

module _ (incidence_tolerance resolution_tolerance : ℕ) where
  abbrev pub tests : ComparisonMetadata → ComparisonMetadata → List (Bool × String)
  tests a b =
      (not (same_processing a b), "PROCESSING_PROFILE_MISMATCH")
      ∷ (
        not (a.provider_software_version == b.provider_software_version),
        "PROCESSING_SOFTWARE_MISMATCH",
      )
      ∷ (not (same_terrain a b), "RTC_OR_DEM_MISMATCH")
      ∷ (not (a.polarizations == b.polarizations), "POLARIZATION_MISMATCH")
      ∷ (not (a.sensor_orientation == b.sensor_orientation), "LOOK_DIRECTION_MISMATCH")
      ∷ (not (a.orbit_state == b.orbit_state), "ORBIT_STATE_MISMATCH")
      ∷ (not (a.scene_number == b.scene_number), "TRACK_MISMATCH")
      ∷ (
        angles_apart incidence_tolerance a.incidence_angle b.incidence_angle,
        "INCIDENCE_ANGLE_MISMATCH",
      )
      ∷ (apart resolution_tolerance a.pixel_spacing b.pixel_spacing, "RESOLUTION_MISMATCH")
      ∷ []

  unfoldable pub comparison_reason_codes : ComparisonMetadata → ComparisonMetadata → List String
  unfolding complete
  comparison_reason_codes a b =
      if not (complete a) || not (complete b)
      then "METADATA_INCOMPLETE" ∷ []
      else reasons_from (tests a b)

-- The fields that the key is made of, as `json.dumps` gets them.
pub record KeyFields : Type 0 where
  pub texts : List String
  pub optional_texts : List (Option String)
  pub flags : List (Option Bool)
  pub polarizations : List String
  pub numbers : List (Option ℕ)

abbrev pub key_fields : ComparisonMetadata → KeyFields
key_fields m = record {
  texts =
      m.policy_version ∷ m.frequency_band ∷ m.processing_profile_version ∷ m.calibration_formula
      ∷ m.output_scale ∷ [];
  optional_texts =
      m.platform ∷ m.sensor ∷ m.instrument_mode ∷ m.product_type ∷ m.processing_level
      ∷ m.provider_software_version ∷ m.dem_source ∷ m.sensor_orientation ∷ m.orbit_state ∷ [];
  flags = m.rtc_applied ∷ m.dem_correction ∷ [];
  polarizations = m.polarizations;
  numbers = m.scene_number ∷ m.incidence_angle ∷ some m.pixel_spacing ∷ [];
}

unfoldable pub comparison_key_hash : {A : Type 0} → (KeyFields → A) → ComparisonMetadata → A
comparison_key_hash digest m = digest (key_fields m)
