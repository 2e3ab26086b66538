-- ===== src/Processing/Comparability/Fields.antt =====
-- The tests on fields and on tolerances, and the equations and bounds that they decide.
use akasha_ingestion.Base.{
  ℕ, Bool, true, false, not, Option, none, some, List, [], ◌∷◌, String, ◌≡◌, ◌↔◌, refl, arith,
  string_eq, nat_eq, bool_eq, option_eq, list_eq, beq_refl, ◌≤◌, ◌+◌, ◌&&◌, ◌==◌, subst, All, Keyed,
}
use akasha_ingestion.Processing.Comparability.Metadata.{ComparisonMetadata}
use akasha_ingestion.Processing.Comparability.Reasons.{
  apart, angles_apart, reasons_from, tests, same_processing, same_terrain,
}

pub apart_self : (t a : ℕ) → apart t a a ≡ false
apart_self t a = ground arith

pub angles_apart_self : (t : ℕ) (a : Option ℕ) → angles_apart t a a ≡ false
angles_apart_self t none = refl
angles_apart_self t (some a) = apart_self t a

-- No code is given exactly when every test fails.
pub reasons_from-All :
    (tests : List (Bool × String)) → (reasons_from tests ≡ []) ↔ All (λ t. t.0 ≡ false) tests
reasons_from-All [] = ((λ e. tt), (λ all. refl))
reasons_from-All ((true, code) ∷ tests) = ((λ e. cc e), (λ all. cc all.0))
reasons_from-All ((false, code) ∷ tests) =
    let rest = reasons_from-All tests in ((λ e. (refl, rest.0 e)), (λ all. rest.1 all.1))

pub passes : (b : Bool) → not b ≡ false → b ≡ true
passes true h = refl
passes false h = cc h

pub fails : (b : Bool) → b ≡ true → not b ≡ false
fails true h = refl
fails false h = cc h

-- The distance of the two is at most the tolerance.
abbrev pub IsWithin : ℕ → ℕ → ℕ → Type 0
IsWithin t i j = (i ≤ j + t) × (j ≤ i + t)

pub apart-IsWithin : (t i j : ℕ) → (apart t i j ≡ false) ↔ IsWithin t i j
apart-IsWithin t i j = ground arith

pub IsWithin-self : (t i : ℕ) → IsWithin t i i
IsWithin-self t i = (omega arith, omega arith)

pub some_inj : {A : Type 0} {a b : A} → some a ≡ some b → a ≡ b
some_inj e = cc e

pub angles_apart-IsWithin :
    (t : ℕ) (a b : Option ℕ)
    → (angles_apart t a b ≡ false) ↔ ((i j : ℕ) → a ≡ some i → b ≡ some j → IsWithin t i j)
angles_apart-IsWithin t none b = ((λ e i j p q. cc p), (λ h. refl))
angles_apart-IsWithin t (some i) none = ((λ e i j p q. cc q), (λ h. refl))
angles_apart-IsWithin t (some i) (some j) = (
  (λ e k l p q.
      subst (λ x. IsWithin t x l) (some_inj p)
        (subst (IsWithin t i) (some_inj q) ((apart-IsWithin t i j).0 e))),
  (λ h. (apart-IsWithin t i j).1 (h i j refl refl)),
)

pub option_iff : {A : Type 0} ⦃e : Keyed A⦄ (a b : Option A) → ((a == b) ≡ true) ↔ (a ≡ b)
option_iff a b = Keyed.same_iff option_eq a b

pub each_of_nine :
    (b1 b2 b3 b4 b5 b6 b7 b8 b9 : Bool)
    → b1 && b2 && b3 && b4 && b5 && b6 && b7 && b8 && b9 ≡ true
    → (b1 ≡ true)
      × (b2 ≡ true)
      × (b3 ≡ true)
      × (b4 ≡ true)
      × (b5 ≡ true)
      × (b6 ≡ true)
      × (b7 ≡ true)
      × (b8 ≡ true)
      × (b9 ≡ true)
each_of_nine b1 b2 b3 b4 b5 b6 b7 b8 b9 h = ground arith

pub each_of_three :
    (b1 b2 b3 : Bool) → b1 && b2 && b3 ≡ true → (b1 ≡ true) × (b2 ≡ true) × (b3 ≡ true)
each_of_three b1 b2 b3 h = ground arith

pub same_processing_self : (b : ComparisonMetadata) → same_processing b b ≡ true
same_processing_self b =
    rw
      (
        beq_refl b.platform,
        beq_refl b.sensor,
        beq_refl b.frequency_band,
        beq_refl b.instrument_mode,
        beq_refl b.product_type,
        beq_refl b.processing_level,
        beq_refl b.processing_profile_version,
        beq_refl b.calibration_formula,
        beq_refl b.output_scale,
      )
      refl

pub same_terrain_self : (b : ComparisonMetadata) → same_terrain b b ≡ true
same_terrain_self b =
    rw (beq_refl b.rtc_applied, beq_refl b.dem_correction, beq_refl b.dem_source) refl
