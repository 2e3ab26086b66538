-- ===== src/Processing/Comparability/Agreement.antt =====
-- When two observations have no reason against their comparison.
use akasha_ingestion.Base.{
  ℕ, true, false, some, [], ◌≡◌, ◌↔◌, ap, string_eq, nat_eq, bool_eq, option_eq, list_eq,
  Bool-cases, ◌==◌, All, Keyed, inl, inr,
}
use akasha_ingestion.Processing.Comparability.Metadata.{ComparisonMetadata, complete}
use akasha_ingestion.Processing.Comparability.Reasons.{
  apart, angles_apart, tests, same_processing, same_terrain, comparison_reason_codes, KeyFields,
  key_fields, comparison_key_hash,
}
use akasha_ingestion.Processing.Comparability.Fields.{
  apart_self, angles_apart_self, reasons_from-All, passes, fails, IsWithin, apart-IsWithin,
  angles_apart-IsWithin, option_iff, each_of_nine, each_of_three, same_processing_self,
  same_terrain_self,
}

module _ (incidence resolution : ℕ) (a b : ComparisonMetadata) where
  -- What the comparison asks for: both are complete, the compared fields are equal, and the angle
  -- and the spacing are within their tolerances.
  pub record IsComparable : Type 0 where
    pub both_complete : (complete a ≡ true) × (complete b ≡ true)
    pub platform : a.platform ≡ b.platform
    pub sensor : a.sensor ≡ b.sensor
    pub frequency : a.frequency_band ≡ b.frequency_band
    pub instrument : a.instrument_mode ≡ b.instrument_mode
    pub product : a.product_type ≡ b.product_type
    pub level : a.processing_level ≡ b.processing_level
    pub profile : a.processing_profile_version ≡ b.processing_profile_version
    pub formula : a.calibration_formula ≡ b.calibration_formula
    pub scale : a.output_scale ≡ b.output_scale
    pub software : a.provider_software_version ≡ b.provider_software_version
    pub terrain : a.rtc_applied ≡ b.rtc_applied
    pub correction : a.dem_correction ≡ b.dem_correction
    pub elevation : a.dem_source ≡ b.dem_source
    pub polarizations : a.polarizations ≡ b.polarizations
    pub orientation : a.sensor_orientation ≡ b.sensor_orientation
    pub orbit : a.orbit_state ≡ b.orbit_state
    pub track : a.scene_number ≡ b.scene_number
    pub angle :
        (i j : ℕ) → a.incidence_angle ≡ some i → b.incidence_angle ≡ some j → IsWithin incidence i j
    pub spacing : IsWithin resolution a.pixel_spacing b.pixel_spacing

  -- The same as the code's own tests have it.
  record PassesTests : Type 0 where
    both_complete : (complete a ≡ true) × (complete b ≡ true)
    processing : same_processing a b ≡ true
    software : a.provider_software_version ≡ b.provider_software_version
    terrain : same_terrain a b ≡ true
    polarizations : a.polarizations ≡ b.polarizations
    orientation : a.sensor_orientation ≡ b.sensor_orientation
    orbit : a.orbit_state ≡ b.orbit_state
    track : a.scene_number ≡ b.scene_number
    angle : angles_apart incidence a.incidence_angle b.incidence_angle ≡ false
    spacing : apart resolution a.pixel_spacing b.pixel_spacing ≡ false

  silent-PassesTests :
      (complete a ≡ true) × (complete b ≡ true)
      → All (λ t. t.0 ≡ false) (tests incidence resolution a b)
      → PassesTests
  silent-PassesTests both
        (
          processing,
          (software, (terrain, (polarizations, (look, (orbit, (track, (angle, (spacing, end)))))))),
        ) =
      record {
        both_complete = both;
        processing = passes (same_processing a b) processing;
        software =
            (Keyed.same_iff option_eq a.provider_software_version b.provider_software_version).0
              (passes _ software);
        terrain = passes (same_terrain a b) terrain;
        polarizations =
            (Keyed.same_iff list_eq a.polarizations b.polarizations).0 (passes _ polarizations);
        orientation =
            (Keyed.same_iff option_eq a.sensor_orientation b.sensor_orientation).0 (passes _ look);
        orbit = (Keyed.same_iff option_eq a.orbit_state b.orbit_state).0 (passes _ orbit);
        track = (Keyed.same_iff option_eq a.scene_number b.scene_number).0 (passes _ track);
        angle = angle;
        spacing = spacing;
      }

  PassesTests-silent : PassesTests → All (λ t. t.0 ≡ false) (tests incidence resolution a b)
  PassesTests-silent c = (
    fails (same_processing a b) c.processing,
    (
      fails _ (
          (Keyed.same_iff option_eq a.provider_software_version b.provider_software_version).1
            c.software),
      (
        fails (same_terrain a b) c.terrain,
        (
          fails _ ((Keyed.same_iff list_eq a.polarizations b.polarizations).1 c.polarizations),
          (
            fails _ (
                (Keyed.same_iff option_eq a.sensor_orientation b.sensor_orientation).1
                  c.orientation),
            (
              fails _ ((Keyed.same_iff option_eq a.orbit_state b.orbit_state).1 c.orbit),
              (
                fails _ ((Keyed.same_iff option_eq a.scene_number b.scene_number).1 c.track),
                (c.angle, (c.spacing, tt)),
              ),
            ),
          ),
        ),
      ),
    ),
  )

  comparison_reason_codes-PassesTests :
      (comparison_reason_codes incidence resolution a b ≡ []) ↔ PassesTests
  unfolding comparison_reason_codes
  comparison_reason_codes-PassesTests = elim (Bool-cases (complete a)) [
    | inr lacking ↦ ((λ e. cc (rw lacking at e)), (λ c. cc (c.both_complete.0, lacking)))
    | inl first ↦ elim (Bool-cases (complete b)) [
      | inr lacking ↦ ((λ e. cc (rw (first, lacking) at e)), (λ c. cc (c.both_complete.1, lacking)))
      | inl second ↦
          let iff = reasons_from-All (tests incidence resolution a b) in
          (
            (λ e. silent-PassesTests (first, second) (iff.0 (rw (first, second) at e))),
            (λ c. rw (first, second) (iff.1 (PassesTests-silent c))),
          )
    ]
  ]

  PassesTests-IsComparable : PassesTests → IsComparable
  PassesTests-IsComparable c =
      let (p1, p2, p3, p4, p5, p6, p7, p8, p9) =
        each_of_nine (a.platform == b.platform) (a.sensor == b.sensor)
          (a.frequency_band == b.frequency_band) (a.instrument_mode == b.instrument_mode)
          (a.product_type == b.product_type) (a.processing_level == b.processing_level)
          (a.processing_profile_version == b.processing_profile_version)
          (a.calibration_formula == b.calibration_formula) (a.output_scale == b.output_scale)
          c.processing in
      let (t1, t2, t3) =
        each_of_three (a.rtc_applied == b.rtc_applied) (a.dem_correction == b.dem_correction)
          (a.dem_source == b.dem_source) c.terrain in
      record {
        both_complete = c.both_complete;
        platform = (option_iff a.platform b.platform).0 p1;
        sensor = (option_iff a.sensor b.sensor).0 p2;
        frequency = (Keyed.same_iff string_eq a.frequency_band b.frequency_band).0 p3;
        instrument = (option_iff a.instrument_mode b.instrument_mode).0 p4;
        product = (option_iff a.product_type b.product_type).0 p5;
        level = (option_iff a.processing_level b.processing_level).0 p6;
        profile =
            (Keyed.same_iff string_eq a.processing_profile_version b.processing_profile_version).0
              p7;
        formula = (Keyed.same_iff string_eq a.calibration_formula b.calibration_formula).0 p8;
        scale = (Keyed.same_iff string_eq a.output_scale b.output_scale).0 p9;
        software = c.software;
        terrain = (option_iff a.rtc_applied b.rtc_applied).0 t1;
        correction = (option_iff a.dem_correction b.dem_correction).0 t2;
        elevation = (option_iff a.dem_source b.dem_source).0 t3;
        polarizations = c.polarizations;
        orientation = c.orientation;
        orbit = c.orbit;
        track = c.track;
        angle = (angles_apart-IsWithin incidence a.incidence_angle b.incidence_angle).0 c.angle;
        spacing = (apart-IsWithin resolution a.pixel_spacing b.pixel_spacing).0 c.spacing;
      }

  IsComparable-PassesTests : IsComparable → PassesTests
  IsComparable-PassesTests c = record {
    both_complete = c.both_complete;
    processing =
        rw
          (
            c.platform, c.sensor, c.frequency, c.instrument, c.product, c.level, c.profile,
            c.formula, c.scale,
          )
          (same_processing_self b);
    software = c.software;
    terrain = rw (c.terrain, c.correction, c.elevation) (same_terrain_self b);
    polarizations = c.polarizations;
    orientation = c.orientation;
    orbit = c.orbit;
    track = c.track;
    angle = (angles_apart-IsWithin incidence a.incidence_angle b.incidence_angle).1 c.angle;
    spacing = (apart-IsWithin resolution a.pixel_spacing b.pixel_spacing).1 c.spacing;
  }

  -- Two observations have no reason against their comparison exactly when both are complete, the
  -- compared fields are equal, and the angle and the spacing are within their tolerances.
  pub comparison_reason_codes-IsComparable :
      (comparison_reason_codes incidence resolution a b ≡ []) ↔ IsComparable
  comparison_reason_codes-IsComparable = (
    (λ e. PassesTests-IsComparable (comparison_reason_codes-PassesTests.0 e)),
    (λ c. comparison_reason_codes-PassesTests.1 (IsComparable-PassesTests c)),
  )

module _ {A : Type 0} (digest : KeyFields → A)
    (unique : (k l : KeyFields) → digest k ≡ digest l → k ≡ l) where
  -- If the digest of no two keys is the same, complete observations with the same key hash may be
  -- compared, whatever the tolerances.
  pub same_key-comparable :
      (incidence resolution : ℕ) (a b : ComparisonMetadata)
      → complete a ≡ true
      → complete b ≡ true
      → comparison_key_hash digest a ≡ comparison_key_hash digest b
      → comparison_reason_codes incidence resolution a b ≡ []
  unfolding comparison_key_hash
  same_key-comparable incidence resolution a b first second same =
      let keys = unique (key_fields a) (key_fields b) same in
      let platform : a.platform ≡ b.platform = cc in
      let sensor : a.sensor ≡ b.sensor = cc in
      let band : a.frequency_band ≡ b.frequency_band = cc in
      let mode : a.instrument_mode ≡ b.instrument_mode = cc in
      let type : a.product_type ≡ b.product_type = cc in
      let level : a.processing_level ≡ b.processing_level = cc in
      let profile : a.processing_profile_version ≡ b.processing_profile_version = cc in
      let formula : a.calibration_formula ≡ b.calibration_formula = cc in
      let scale : a.output_scale ≡ b.output_scale = cc in
      let rtc : a.rtc_applied ≡ b.rtc_applied = cc in
      let correction : a.dem_correction ≡ b.dem_correction = cc in
      let source : a.dem_source ≡ b.dem_source = cc in
      (comparison_reason_codes-PassesTests incidence resolution a b).1 (record {
        both_complete = (first, second);
        processing =
            rw (platform, sensor, band, mode, type, level, profile, formula, scale)
              (same_processing_self b);
        software = cc;
        terrain = rw (rtc, correction, source) (same_terrain_self b);
        polarizations = ap KeyFields.polarizations keys;
        orientation = cc;
        orbit = cc;
        track = cc;
        angle =
            let e : a.incidence_angle ≡ b.incidence_angle = cc in
            rw e (angles_apart_self incidence b.incidence_angle);
        spacing =
            let e : a.pixel_spacing ≡ b.pixel_spacing = cc in
            rw e (apart_self resolution b.pixel_spacing);
      })
