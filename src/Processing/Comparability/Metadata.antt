-- ===== src/Processing/Comparability/Metadata.antt =====
-- `normalize_eos04_comparison_metadata`. A number that `_number` accepts is above -9999: it stands as
-- the millionths that it lies above that. `strip`, `upper`, `float` and `strptime` (with the
-- cut of its fraction to six digits) are arguments.
use akasha_ingestion.Base.{
  ℕ, ◌+◌, ◌-◌, ◌*◌, ◌/◌, ◌%◌, Bool, true, false, ◌&&◌, ◌||◌, Option, none, some, List, [], ◌∷◌,
  ◌++◌, String, if◌then◌else◌, ◌==◌, string_eq, ltb, leb, nat_beq, any,
}
use akasha_ingestion.Base.Dict.{Dict, lookup}
use text.Mathlib.Text.{starts_with}

-- The entries that are compared, and those that tell whether the metadata are complete.
pub record ComparisonMetadata : Type 0 where
  pub policy_version : String
  pub platform : Option String
  pub sensor : Option String
  pub frequency_band : String
  pub instrument_mode : Option String
  pub product_type : Option String
  pub processing_level : Option String
  pub processing_profile_version : String
  pub provider_software_version : Option String
  pub calibration_formula : String
  pub output_scale : String
  pub rtc_applied : Option Bool
  pub dem_correction : Option Bool
  pub dem_source : Option String
  pub polarizations : List String
  pub sensor_orientation : Option String
  pub orbit_state : Option String
  pub orbit_state_source : Option String
  pub scene_number : Option ℕ
  pub incidence_angle : Option ℕ
  pub pixel_spacing : ℕ
  pub acquisition_start : Option String
  pub acquisition_end : Option String

abbrev pub policy_version : String
policy_version = "eos04-comparability-v1"

abbrev pub missing_text : List String
missing_text = "" ∷ "NA" ∷ "N/A" ∷ "NONE" ∷ "NULL" ∷ "UNKNOWN" ∷ "-9999" ∷ []

abbrev pub is_one_of : String → List String → Bool
is_one_of t ts = any (λ x. x == t) ts

-- `str(value or "")`
abbrev pub or_blank : Option String → String
or_blank none = ""
or_blank (some t) = t

abbrev pub zero_at : ℕ
zero_at = 9999000000

module _ (strip upper : String → String) (float : String → Option ℕ)
    (strptime : String → Option String) where
  abbrev pub text_of : Option String → Option String
  text_of value =
      let t = upper (strip (or_blank value)) in if is_one_of t missing_text then none else some t

  -- `float` gives a number only if the text is one, finite and above -9999.
  abbrev pub number_of : Option String → Option ℕ
  number_of none = none
  number_of (some t) = float (strip t)

  abbrev pub integer_from : Option ℕ → Option ℕ
  integer_from none = none
  integer_from (some n) =
      if ltb zero_at n && nat_beq (n % 1000000) 0 then some ((n - zero_at) / 1000000) else none

  abbrev pub positive_integer : Option String → Option ℕ
  positive_integer value = integer_from (number_of value)

  abbrev pub flag : Option String → Option Bool
  flag value =
      let t = strip (or_blank value) in
      if t == "1" then some true else if t == "0" then some false else none

  abbrev pub yes_no : Option String → Option Bool
  yes_no value =
      let t = upper (strip (or_blank value)) in
      if is_one_of t ("YES" ∷ "Y" ∷ "TRUE" ∷ "1" ∷ [])
      then some true
      else if is_one_of t ("NO" ∷ "N" ∷ "FALSE" ∷ "0" ∷ [])
      then some false
      else none

  abbrev pub degrees : ℕ → ℕ
  degrees n = zero_at + n * 1000000

  abbrev pub by_heading : Option ℕ → Option String × Option String
  by_heading none = (none, none)
  by_heading (some h) =
      if ltb h (degrees 0)
        || leb (degrees 360) h
        || nat_beq h (degrees 90)
        || nat_beq h (degrees 270)
      then (none, none)
      else if ltb h (degrees 90) || ltb (degrees 270) h
      then (some "ASCENDING", some "satellite_heading")
      else (some "DESCENDING", some "satellite_heading")

  unfoldable pub orbit_state : Option String → Option ℕ → Option String × Option String
  orbit_state none heading = by_heading heading
  orbit_state (some pass) heading =
      if starts_with pass "ASC" || pass == "A"
      then (some "ASCENDING", some "provider_pass_type")
      else if starts_with pass "DES" || pass == "D"
      then (some "DESCENDING", some "provider_pass_type")
      else by_heading heading

  abbrev pub provider_datetime : Option String → Option String
  provider_datetime value =
      let t = strip (or_blank value) in
      if is_one_of (upper t) missing_text then none else strptime t

  abbrev pub first_text : Option String → Option String → Option String
  first_text none b = b
  first_text (some t) b = some t

  -- `number or resolution_meters`: zero is falsy.
  abbrev pub spacing_or : Option ℕ → ℕ → ℕ
  spacing_or none resolution = resolution
  spacing_or (some n) resolution = if nat_beq n zero_at then resolution else n

  unfoldable pub normalize :
      Dict String String → List String → String → String → String → ℕ → ComparisonMetadata
  unfolding orbit_state
  normalize m polarizations profile formula scale resolution =
      let orbit =
        orbit_state (text_of (lookup "PassType" m))
          (number_of (lookup "SatelliteHeadingAngle" m)) in
      record {
        policy_version = policy_version;
        platform = text_of (lookup "SatID" m);
        sensor = text_of (lookup "Sensor" m);
        frequency_band = "C";
        instrument_mode = text_of (lookup "ImagingMode" m);
        product_type = text_of (lookup "ProductType" m);
        processing_level = text_of (lookup "ProcessingLevel" m);
        processing_profile_version = profile;
        provider_software_version = text_of (lookup "SOFTWARE_VERSION" m);
        calibration_formula = formula;
        output_scale = scale;
        rtc_applied = flag (lookup "RTC_Apply_Flag" m);
        dem_correction = yes_no (lookup "DEMCorrection" m);
        dem_source =
            first_text (text_of (lookup "DEMSource_Grid" m)) (text_of (lookup "DEMSource" m));
        polarizations = polarizations;
        sensor_orientation = text_of (lookup "SensorOrientation" m);
        orbit_state = orbit.0;
        orbit_state_source = orbit.1;
        scene_number = positive_integer (lookup "SceneNumber" m);
        incidence_angle = number_of (lookup "IncidenceAngle" m);
        pixel_spacing = spacing_or (number_of (lookup "OutputPixelSpacing" m)) resolution;
        acquisition_start = provider_datetime (lookup "SceneStartTime" m);
        acquisition_end = provider_datetime (lookup "SceneEndTime" m);
      }

module _ {A : Type 0} where
  -- The name of an entry that is `None`.
  abbrev pub absent : String → Option A → List String
  absent name none = name ∷ []
  absent name (some a) = []

abbrev pub no_polarizations : List String → List String
no_polarizations [] = "polarizations" ∷ []
no_polarizations (p ∷ ps) = []

-- `missing`: the entries that are never `None` are left out.
unfoldable pub missing : ComparisonMetadata → List String
missing m =
    absent "platform" m.platform
    ++ absent "sensor" m.sensor
    ++ absent "instrumentMode" m.instrument_mode
    ++ absent "productType" m.product_type
    ++ absent "providerSoftwareVersion" m.provider_software_version
    ++ absent "rtcApplied" m.rtc_applied
    ++ absent "demCorrection" m.dem_correction
    ++ absent "demSource" m.dem_source
    ++ no_polarizations m.polarizations
    ++ absent "sensorOrientation" m.sensor_orientation
    ++ absent "orbitState" m.orbit_state
    ++ absent "trackKey" m.scene_number
    ++ absent "incidenceAngleDegrees" m.incidence_angle
    ++ absent "acquisitionStart" m.acquisition_start
    ++ absent "acquisitionEnd" m.acquisition_end

abbrev pub is_nil : List String → Bool
is_nil [] = true
is_nil (x ∷ xs) = false

unfoldable pub complete : ComparisonMetadata → Bool
unfolding missing
complete m = is_nil (missing m)
