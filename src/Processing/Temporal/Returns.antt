-- ===== src/Processing/Temporal/Returns.antt =====
-- With a minimum of at least one observation the analysis has no median of no values.
use akasha_ingestion.Base.{
  ℕ, zero, suc, ◌-◌, ◌*◌, ◌/◌, ◌≤◌, Bool, Option, none, some, List, [], ◌∷◌, map, String, ◌≡◌, ◌≢◌,
  refl, length, ltb, leb, arith, Bool-cases, inl, inr, length-map,
}
use akasha_ingestion.Base.Sort.{sort_by, insert_sorted}
use akasha_ingestion.Processing.Temporal.Baseline.{
  Stats, Deviation, at, sum_if_both, median_of_sorted, twice_median, deviation_with, deviation_from,
  distance, robust_deviation, medians_of, features_named, bands_by_name,
}
use akasha_ingestion.Processing.Temporal.Analysis.{
  by_name, add_score, scores, baseline_of, baseline,
}

at-defined : (n : ℕ) (xs : List ℕ) → suc n ≤ length xs → at n xs ≢ none
at-defined n [] h = ground (arith, h)
at-defined zero (x ∷ xs) h = λ e. cc e
at-defined (suc n) (x ∷ xs) h = at-defined n xs (omega (arith, h))

sum_if_both-defined : (a b : Option ℕ) → a ≢ none → b ≢ none → sum_if_both a b ≢ none
sum_if_both-defined none b h k = λ e. h refl
sum_if_both-defined (some a) none h k = λ e. k refl
sum_if_both-defined (some a) (some b) h k = λ e. cc e

length-insert_sorted : (x : ℕ) (xs : List ℕ) → length (insert_sorted leb x xs) ≡ suc (length xs)
length-insert_sorted x [] = refl
length-insert_sorted x (y ∷ ys) = elim (Bool-cases (leb x y)) [
  | inl e ↦ rw e refl
  | inr e ↦ rw (e, length-insert_sorted x ys) refl
]

length-sort_by : (xs : List ℕ) → length (sort_by leb xs) ≡ length xs
length-sort_by [] = refl
length-sort_by (x ∷ xs) = rw (length-insert_sorted x (sort_by leb xs), length-sort_by xs) refl

half_below : (n : ℕ) → 1 ≤ n → suc ((n - 1) / 2) ≤ n
half_below n h = omega arith

half_within : (n : ℕ) → 1 ≤ n → suc (n / 2) ≤ n
half_within n h = omega arith

median_of_sorted-defined : (xs : List ℕ) → 1 ≤ length xs → median_of_sorted xs ≢ none
median_of_sorted-defined xs h =
    sum_if_both-defined (at ((length xs - 1) / 2) xs) (at (length xs / 2) xs)
      (at-defined ((length xs - 1) / 2) xs (half_below (length xs) h))
      (at-defined (length xs / 2) xs (half_within (length xs) h))

twice_median-defined : (xs : List ℕ) → 1 ≤ length xs → twice_median xs ≢ none
twice_median-defined xs h =
    median_of_sorted-defined (sort_by leb xs) (omega (arith, length-sort_by xs))

deviation_with-defined :
    (current center : ℕ) (o : Option ℕ) → o ≢ none → deviation_with current center o ≢ none
deviation_with-defined current center none h = λ e. h refl
deviation_with-defined current center (some spread) h = λ e. cc e

deviation_from-defined :
    (current : ℕ) (values : List ℕ) (o : Option ℕ)
    → 1 ≤ length values
    → o ≢ none
    → deviation_from current values o ≢ none
deviation_from-defined current values none more h = λ e. h refl
deviation_from-defined current values (some center) more h =
    deviation_with-defined current center (twice_median (map (λ v. distance (2 * v) center) values))
      (twice_median-defined (map (λ v. distance (2 * v) center) values)
        (omega (arith, length-map (λ v. distance (2 * v) center) values)))

robust_deviation-defined :
    (current : ℕ) (values : List ℕ) → 1 ≤ length values → robust_deviation current values ≢ none
unfolding robust_deviation
robust_deviation-defined current values more =
    deviation_from-defined current values (twice_median values) more
      (twice_median-defined values more)

add_score-defined :
    (name : String) (d : Option Deviation) (rest : Option (List (String × Deviation)))
    → d ≢ none
    → rest ≢ none
    → add_score name d rest ≢ none
add_score-defined name none rest h k = λ e. h refl
add_score-defined name (some d) none h k = λ e. k refl
add_score-defined name (some d) (some rest) h k = λ e. cc e

scores-defined :
    (le : String → String → Bool) (minimum : ℕ) (earlier : String → List ℕ)
    (items : List (String × Option ℕ))
    → 1 ≤ minimum
    → scores le minimum earlier items ≢ none
scores-defined le minimum earlier [] h = λ e. cc e
scores-defined le minimum earlier ((name, none) ∷ items) h =
    scores-defined le minimum earlier items h
scores-defined le minimum earlier ((name, some value) ∷ items) h =
    elim (Bool-cases (ltb (length (earlier name)) minimum)) [
      | inl few ↦ rw few (scores-defined le minimum earlier items h)
      | inr enough ↦ rw enough (
          add_score-defined name (robust_deviation value (earlier name))
            (scores le minimum earlier items)
            (robust_deviation-defined value (earlier name) (ground (arith, h, enough)))
            (scores-defined le minimum earlier items h))
    ]

baseline_of-defined :
    (le : String → String → Bool) (minimum n : ℕ) (a b : Option (List (String × Deviation)))
    → a ≢ none
    → b ≢ none
    → baseline_of le minimum n a b ≢ none
baseline_of-defined le minimum n none b h k = λ e. h refl
baseline_of-defined le minimum n (some a) none h k = λ e. k refl
baseline_of-defined le minimum n (some a) (some b) h k = λ e. cc e

pub baseline-defined :
    (le : String → String → Bool) (minimum : ℕ) (current : Stats) (earlier : List Stats)
    → 1 ≤ minimum
    → baseline le minimum current earlier ≢ none
unfolding baseline
baseline-defined le minimum current earlier h = elim (Bool-cases (ltb (length earlier) minimum)) [
  | inl few ↦ rw few (λ e. cc e)
  | inr enough ↦ rw enough (
      baseline_of-defined le minimum (length earlier)
        (scores le minimum (λ p. medians_of p earlier) (by_name le (bands_by_name current)))
        (scores le minimum (λ n. features_named n earlier)
          (by_name le (map (λ x. (x.0, some x.1)) current.features)))
        (scores-defined le minimum (λ p. medians_of p earlier) (by_name le (bands_by_name current))
          h)
        (scores-defined le minimum (λ n. features_named n earlier)
          (by_name le (map (λ x. (x.0, some x.1)) current.features)) h))
]
