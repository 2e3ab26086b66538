-- ===== src/Processing/Temporal/Baseline.antt =====
-- `_robust_deviation` and `_baseline`. A value is a number of millionths above a fixed level, exact
-- where the source has a float; a median is kept twice and a spread four times as large, so that both
-- are whole. The score itself is not computed: what is decided is whether there is one.
use akasha_ingestion.Base.{
  ℕ, zero, suc, ◌+◌, ◌-◌, ◌*◌, ◌/◌, Bool, Option, none, some, List, [], ◌∷◌, map, String, length,
  leb, ltb, string_eq,
}
use akasha_ingestion.Base.Dict.{Dict, lookup, insert}
use akasha_ingestion.Base.Sort.{sort_by}

pub record Band : Type 0 where
  pub polarization : String
  pub median : Option ℕ

pub record Stats : Type 0 where
  pub bands : List Band
  pub features : Dict String ℕ

pub record Deviation : Type 0 where
  pub current_value : ℕ
  pub baseline_median_twice : ℕ
  pub mad_four_times : ℕ
  pub has_score : Bool

abbrev pub insert_bands : List Band → Dict String (Option ℕ) → Dict String (Option ℕ)
insert_bands [] d = d
insert_bands (b ∷ bands) d = insert_bands bands (insert b.polarization b.median d)

abbrev pub bands_by_name : Stats → Dict String (Option ℕ)
bands_by_name stats = insert_bands stats.bands []

abbrev pub at : ℕ → List ℕ → Option ℕ
at n [] = none
at zero (x ∷ xs) = some x
at (suc n) (x ∷ xs) = at n xs

abbrev pub sum_if_both : Option ℕ → Option ℕ → Option ℕ
sum_if_both (some a) (some b) = some (a + b)
sum_if_both _ _ = none

-- Twice `statistics.median` of values in order; `none` is its error on no values.
abbrev pub median_of_sorted : List ℕ → Option ℕ
median_of_sorted xs = sum_if_both (at ((length xs - 1) / 2) xs) (at (length xs / 2) xs)

abbrev pub twice_median : List ℕ → Option ℕ
twice_median xs = median_of_sorted (sort_by leb xs)

abbrev pub distance : ℕ → ℕ → ℕ
distance a b = (a - b) + (b - a)

abbrev pub deviation_with : ℕ → ℕ → Option ℕ → Option Deviation
deviation_with current center none = none
deviation_with current center (some spread) = some (record {
  current_value = current;
  baseline_median_twice = center;
  mad_four_times = spread;
  -- `spread <= _MAD_EPSILON`, which is a millionth
  has_score = ltb 4 spread;
})

abbrev pub deviation_from : ℕ → List ℕ → Option ℕ → Option Deviation
deviation_from current values none = none
deviation_from current values (some center) =
    deviation_with current center (twice_median (map (λ v. distance (2 * v) center) values))

unfoldable pub robust_deviation : ℕ → List ℕ → Option Deviation
robust_deviation current values = deviation_from current values (twice_median values)

-- The values of those observations that have one.
abbrev pub medians_of : String → List Stats → List ℕ
medians_of p [] = []
medians_of p (s ∷ stats) = add (lookup p (bands_by_name s)) (medians_of p stats)
  where
    add : Option (Option ℕ) → List ℕ → List ℕ
    add (some (some v)) vs = v ∷ vs
    add _ vs = vs

abbrev pub features_named : String → List Stats → List ℕ
features_named name [] = []
features_named name (s ∷ stats) = add (lookup name s.features) (features_named name stats)
  where
    add : Option ℕ → List ℕ → List ℕ
    add (some v) vs = v ∷ vs
    add none vs = vs
