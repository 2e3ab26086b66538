-- ===== src/Processing/Temporal/Analysis.antt =====
-- `build_sar_temporal_analysis`: the split of the earlier observations, `_change` against the newest
-- that is comparable, `_baseline` over all that are, and the status. The order of strings is an
-- argument.
use akasha_ingestion.Base.{
  ℕ, ◌+◌, Bool, true, false, not, ◌||◌, Option, none, some, List, [], ◌∷◌, map, any, String,
  if◌then◌else◌, length, ltb, string_eq,
}
use akasha_ingestion.Base.Dict.{Dict, lookup}
use akasha_ingestion.Base.Sort.{sort_by}
use akasha_ingestion.Processing.Comparability.Metadata.{ComparisonMetadata, complete}
use akasha_ingestion.Processing.Comparability.Reasons.{comparison_reason_codes}
use akasha_ingestion.Processing.Temporal.Baseline.{
  Stats, Deviation, bands_by_name, robust_deviation, medians_of, features_named,
}

pub record Observation : Type 0 where
  pub acquisition_date : String
  pub metadata : ComparisonMetadata
  pub stats : Stats

pub record Exclusion : Type 0 where
  pub excluded_date : String
  pub reason_codes : List String

-- The two values of a difference.
pub record Delta : Type 0 where
  pub name : String
  pub current : ℕ
  pub reference : ℕ

-- `_change`; none is the change that is unavailable for want of an observation.
pub record Change : Type 0 where
  pub is_available : Bool
  pub reference_date : String
  pub band_deltas : List Delta
  pub feature_deltas : List Delta

pub data BaselineStatus : Type 0 where
  insufficient_observations degenerate available : BaselineStatus

pub record Baseline : Type 0 where
  pub status : BaselineStatus
  pub required_prior_observations : ℕ
  pub prior_observation_count : ℕ
  pub bands : List (String × Deviation)
  pub features : List (String × Deviation)

pub data ComparisonStatus : Type 0 where
  metadata_incomplete no_comparable_history insufficient_baseline degenerate_baseline :
      ComparisonStatus
  comparison_available : ComparisonStatus

pub record Analysis : Type 0 where
  pub comparison_status : ComparisonStatus
  pub comparable_observation_count : ℕ
  pub excluded_observation_count : ℕ
  pub exclusions : List Exclusion
  pub history : List Observation
  pub change : Option Change
  pub baseline : Baseline

abbrev pub has_any : {A : Type 0} → List A → Bool
has_any [] = false
has_any (x ∷ xs) = true

abbrev pub add_delta : String → Option ℕ → Option (Option ℕ) → List Delta → List Delta
add_delta name (some a) (some (some b)) rest =
    record { name = name; current = a; reference = b } ∷ rest
add_delta _ _ _ rest = rest

abbrev pub band_deltas_of : List (String × Option ℕ) → Dict String (Option ℕ) → List Delta
band_deltas_of [] previous = []
band_deltas_of ((p, median) ∷ bands) previous =
    add_delta p median (lookup p previous) (band_deltas_of bands previous)

abbrev pub feature_deltas_of : List (String × ℕ) → Dict String ℕ → List Delta
feature_deltas_of [] previous = []
feature_deltas_of ((name, value) ∷ features) previous =
    let rest = feature_deltas_of features previous in
    add_delta name (some value) (wrap (lookup name previous)) rest
  where
    wrap : Option ℕ → Option (Option ℕ)
    wrap none = none
    wrap (some v) = some (some v)

-- One more score before those of the rest.
abbrev pub add_score :
    String
    → Option Deviation
    → Option (List (String × Deviation))
    → Option (List (String × Deviation))
add_score name (some d) (some rest) = some ((name, d) ∷ rest)
add_score name _ _ = none

module _ (le : String → String → Bool) where
  abbrev pub by_name : {A : Type 0} → List (String × A) → List (String × A)
  by_name = sort_by (λ x y. le x.0 y.0)

  abbrev pub change_from : Stats → Observation → Change
  change_from current previous =
      let bands = band_deltas_of (by_name (bands_by_name current)) (bands_by_name previous.stats) in
      let features = feature_deltas_of current.features previous.stats.features in
      record {
        is_available = has_any bands || has_any features;
        reference_date = previous.acquisition_date;
        band_deltas = bands;
        feature_deltas = features;
      }

  module _ (minimum : ℕ) where
    -- The scores of the names with a current value and enough earlier ones; `none` is the error of
    -- `median` on no values.
    abbrev pub scores :
        (String → List ℕ) → List (String × Option ℕ) → Option (List (String × Deviation))
    scores earlier [] = some []
    scores earlier ((name, none) ∷ items) = scores earlier items
    scores earlier ((name, some value) ∷ items) =
        let rest = scores earlier items in
        if ltb (length (earlier name)) minimum
        then rest
        else add_score name (robust_deviation value (earlier name)) rest

    abbrev pub scored : List (String × Deviation) → Bool
    scored = any (λ x. x.1.has_score)

    abbrev pub baseline_of :
        ℕ
        → Option (List (String × Deviation))
        → Option (List (String × Deviation))
        → Option Baseline
    baseline_of n (some bands) (some features) = some (record {
      status = if scored bands || scored features then available else degenerate;
      required_prior_observations = minimum;
      prior_observation_count = n;
      bands = bands;
      features = features;
    })
    baseline_of n _ _ = none

    unfoldable pub baseline : Stats → List Stats → Option Baseline
    baseline current earlier =
        if ltb (length earlier) minimum
        then some (record {
          status = insufficient_observations;
          required_prior_observations = minimum;
          prior_observation_count = length earlier;
          bands = [];
          features = [];
        })
        else baseline_of (length earlier)
            (scores (λ p. medians_of p earlier) (by_name (bands_by_name current)))
            (scores (λ n. features_named n earlier)
              (by_name (map (λ x. (x.0, some x.1)) current.features)))

abbrev pub by_baseline : BaselineStatus → ComparisonStatus
by_baseline insufficient_observations = insufficient_baseline
by_baseline degenerate = degenerate_baseline
by_baseline available = comparison_available

abbrev pub status_after : ComparisonMetadata → List Observation → BaselineStatus → ComparisonStatus
status_after m comparable status =
    if not (complete m)
    then metadata_incomplete
    else if not (has_any comparable)
    then no_comparable_history
    else by_baseline status

-- `if reasons: ... else: ...`
abbrev pub sort_out :
    Observation
    → List String
    → List Observation × List Exclusion
    → List Observation × List Exclusion
sort_out o [] (kept, excluded) = (o ∷ kept, excluded)
sort_out o (code ∷ codes) (kept, excluded) =
    (kept, record { excluded_date = o.acquisition_date; reason_codes = code ∷ codes } ∷ excluded)

module _ (incidence_tolerance resolution_tolerance : ℕ) where
  -- The observations that may be compared, and those that may not with the reasons.
  unfoldable pub split_prior :
      ComparisonMetadata → List Observation → List Observation × List Exclusion
  split_prior m [] = ([], [])
  split_prior m (o ∷ observations) =
      sort_out o (comparison_reason_codes incidence_tolerance resolution_tolerance m o.metadata)
        (split_prior m observations)

  module _ (le : String → String → Bool) (minimum : ℕ) where
    abbrev pub first_change : Stats → List Observation → Option Change
    first_change current [] = none
    first_change current (o ∷ observations) = some (change_from le current o)

    abbrev pub analysis_with :
        ComparisonMetadata
        → Stats
        → List Observation × List Exclusion
        → Option Baseline
        → Option Analysis
    analysis_with m current (comparable, exclusions) none = none
    analysis_with m current (comparable, exclusions) (some baseline) = some (record {
      comparison_status = status_after m comparable baseline.status;
      comparable_observation_count = 1 + length comparable;
      excluded_observation_count = length exclusions;
      exclusions = exclusions;
      history = comparable;
      change = first_change current comparable;
      baseline = baseline;
    })

    unfoldable pub build_sar_temporal_analysis :
        ComparisonMetadata → Stats → List Observation → Option Analysis
    build_sar_temporal_analysis m current prior =
        let parts = split_prior m prior in
        analysis_with m current parts (baseline le minimum current (map Observation.stats parts.0))
