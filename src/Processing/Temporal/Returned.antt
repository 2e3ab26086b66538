-- ===== src/Processing/Temporal/Returned.antt =====
-- What the analysis returns: the split of the earlier observations, and when a comparison is available.
use akasha_ingestion.Base.{
  false, true, filter, not, map, Bool, ◌+◌, ap, ℕ, ◌≤◌, Option, none, some, List, [], ◌∷◌, String,
  ◌≡◌, ◌≢◌, refl, length, Bool-cases, inl, inr, ◌↔◌, ◌∙◌, sym,
}
use akasha_ingestion.Processing.Comparability.Metadata.{ComparisonMetadata, complete}
use akasha_ingestion.Processing.Temporal.Baseline.{Stats}
use akasha_ingestion.Processing.Temporal.Analysis.{
  Observation, Exclusion, Baseline, Analysis, baseline, split_prior, analysis_with,
  build_sar_temporal_analysis, sort_out, by_baseline, status_after, comparison_available, has_any,
  BaselineStatus, insufficient_observations, degenerate, available,
}
use akasha_ingestion.Processing.Comparability.Reasons.{comparison_reason_codes}
use akasha_ingestion.Processing.Temporal.Returns.{baseline-defined}

abbrev pub reasons_against : ℕ → ℕ → ComparisonMetadata → Observation → List String
reasons_against incidence resolution m o = comparison_reason_codes incidence resolution m o.metadata

abbrev pub is_silent : List String → Bool
is_silent [] = true
is_silent (code ∷ codes) = false

abbrev pub is_comparable : ℕ → ℕ → ComparisonMetadata → Observation → Bool
is_comparable incidence resolution m o = is_silent (reasons_against incidence resolution m o)

abbrev pub exclusion_of : ℕ → ℕ → ComparisonMetadata → Observation → Exclusion
exclusion_of incidence resolution m o = record {
  excluded_date = o.acquisition_date;
  reason_codes = reasons_against incidence resolution m o;
}

-- The observations without a reason, and an entry for each of the others, in their order.
abbrev pub IsSplit :
    ℕ → ℕ → ComparisonMetadata → List Observation → List Observation × List Exclusion → Type 0
IsSplit incidence resolution m prior parts =
    (parts.0 ≡ filter (is_comparable incidence resolution m) prior)
    × (parts.1
        ≡ map (exclusion_of incidence resolution m)
            (filter (λ o. not (is_comparable incidence resolution m o)) prior))

sort_out-IsSplit :
    (incidence resolution : ℕ) (m : ComparisonMetadata) (o : Observation) (prior : List Observation)
    (codes : List String) (parts : List Observation × List Exclusion)
    → comparison_reason_codes incidence resolution m o.metadata ≡ codes
    → IsSplit incidence resolution m prior parts
    → IsSplit incidence resolution m (o ∷ prior) (sort_out o codes parts)
sort_out-IsSplit incidence resolution m o prior [] (kept, excluded) e (same, rest) =
    rw e (ap (λ xs. o ∷ xs) same, rest)
sort_out-IsSplit incidence resolution m o prior (code ∷ codes) (kept, excluded) e (same, rest) =
    rw e (
      same,
      ap (λ xs. record { excluded_date = o.acquisition_date; reason_codes = code ∷ codes } ∷ xs)
            rest
          ∙ ap
              (λ found.
                record { excluded_date = o.acquisition_date; reason_codes = found }
                ∷ map (exclusion_of incidence resolution m)
                    (filter (λ x. not (is_comparable incidence resolution m x)) prior))
              (sym e),
    )

split_prior-IsSplit :
    (incidence resolution : ℕ) (m : ComparisonMetadata) (prior : List Observation)
    → IsSplit incidence resolution m prior (split_prior incidence resolution m prior)
unfolding split_prior
split_prior-IsSplit incidence resolution m [] = (refl, refl)
split_prior-IsSplit incidence resolution m (o ∷ prior) =
    sort_out-IsSplit incidence resolution m o prior
      (comparison_reason_codes incidence resolution m o.metadata)
      (split_prior incidence resolution m prior) refl
      (split_prior-IsSplit incidence resolution m prior)

by_baseline-available :
    (s : BaselineStatus) → (by_baseline s ≡ comparison_available) ↔ (s ≡ available)
by_baseline-available insufficient_observations = ((λ e. cc e), (λ e. cc e))
by_baseline-available degenerate = ((λ e. cc e), (λ e. cc e))
by_baseline-available available = ((λ e. refl), (λ e. refl))

-- The history and the exclusions are the two parts of the earlier observations, the counts are theirs,
-- and a comparison is available exactly when there is a history and the baseline is available.
pub record IsAnalysis (incidence resolution : ℕ) (m : ComparisonMetadata) (prior : List Observation)
    (a : Analysis) : Type 0 where
  pub parts : IsSplit incidence resolution m prior (a.history, a.exclusions)
  pub compared : a.comparable_observation_count ≡ 1 + length a.history
  pub excluded : a.excluded_observation_count ≡ length a.exclusions
  pub status :
      (a.comparison_status ≡ comparison_available)
      ↔ ((complete m ≡ true) × (has_any a.history ≡ true) × (a.baseline.status ≡ available))

status_after-available :
    (m : ComparisonMetadata) (comparable : List Observation) (s : BaselineStatus)
    → (status_after m comparable s ≡ comparison_available)
      ↔ ((complete m ≡ true) × (has_any comparable ≡ true) × (s ≡ available))
status_after-available m comparable s = elim (Bool-cases (complete m)) [
  | inr lacking ↦ rw lacking ((λ e. cc e), (λ (e, f, g). cc e))
  | inl whole ↦ elim (Bool-cases (has_any comparable)) [
    | inr lacking ↦ rw (whole, lacking) ((λ e. cc e), (λ (e, f, g). cc f))
    | inl more ↦
        rw (whole, more)
          (
            (λ e. (refl, refl, (by_baseline-available s).0 e)),
            (λ (e, f, g). (by_baseline-available s).1 g),
          )
  ]
]

analysis_with-IsAnalysis :
    (le : String → String → Bool) (incidence resolution minimum : ℕ) (m : ComparisonMetadata)
    (current : Stats) (prior : List Observation) (parts : List Observation × List Exclusion)
    (b : Option Baseline)
    → b ≢ none
    → IsSplit incidence resolution m prior parts
    → (a : Analysis) × (analysis_with incidence resolution le minimum m current parts b ≡ some a)
      × IsAnalysis incidence resolution m prior a
analysis_with-IsAnalysis le incidence resolution minimum m current prior parts none h split =
    elim (h refl) [ ]
analysis_with-IsAnalysis le incidence resolution minimum m current prior parts (some b) h split = (
  _,
  refl,
  record {
    parts = split;
    compared = refl;
    excluded = refl;
    status = status_after-available m parts.0 b.status;
  },
)

-- With a minimum of at least one observation the analysis returns. Its history is the observations
-- without a reason against their comparison, its exclusions are the dates and the reasons of the
-- others, both in the order given and counted, and the comparison is available exactly when the metadata are complete, there is a history, and the
-- baseline is available.
pub build_sar_temporal_analysis-IsAnalysis :
    (le : String → String → Bool) (incidence resolution minimum : ℕ) (m : ComparisonMetadata)
    (current : Stats) (prior : List Observation)
    → 1 ≤ minimum
    → (a : Analysis) × (build_sar_temporal_analysis incidence resolution le minimum m current prior
        ≡ some a)
      × IsAnalysis incidence resolution m prior a
unfolding build_sar_temporal_analysis
build_sar_temporal_analysis-IsAnalysis le incidence resolution minimum m current prior h =
    let parts = split_prior incidence resolution m prior in
    let earlier = map Observation.stats parts.0 in
    analysis_with-IsAnalysis le incidence resolution minimum m current prior parts
      (baseline le minimum current earlier) (baseline-defined le minimum current earlier h)
      (split_prior-IsSplit incidence resolution m prior)
