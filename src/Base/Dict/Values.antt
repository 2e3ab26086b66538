-- ===== src/Base/Dict/Values.antt =====
-- The values of a dict under a write: searched, counted and maximised.
use akasha_ingestion.Base.Tests.{if◌then◌else◌}
use akasha_ingestion.Base.Equality.{Keyed}
use akasha_ingestion.Base.Lists.{filter, find, count, max_of}
use akasha_ingestion.Base.Dict.{Dict, values, lookup, insert}
use Prim.Native.Nat.{ℕ, suc, ◌≤◌, max}
use mathlib.Core.Path.{◌≡◌, refl}
use mathlib.Core.Bool.{Bool, true, false}
use mathlib.Core.List.{List, [], ◌∷◌, ◌++◌}
use mathlib.Core.Option.{none, some}
use native.Mathlib.Omega.{arith}

pub filter-none {ℓ} : {A : Type ℓ} (p : A → Bool) (xs : List A) → count p xs ≡ 0 → filter p xs ≡ []
filter-none p [] h = refl
filter-none p (x ∷ xs) h = ground (arith, filter-none p xs)

module _ {ℓ κ} {K : Type ℓ} {V : Type κ} ⦃e : Keyed K⦄ where
  pub values-insert_new :
      (k : K) (v : V) (d : Dict K V)
      → lookup k d ≡ none
      → values (insert k v d) ≡ values d ++ (v ∷ [])
  values-insert_new k v [] h = refl
  values-insert_new k v ((j, w) ∷ d) h = ground (arith, values-insert_new k v d)

  pub count-insert_same :
      (p : V → Bool) (k : K) (v w : V) (d : Dict K V)
      → lookup k d ≡ some w
      → p v ≡ p w
      → count p (values (insert k v d)) ≡ count p (values d)
  count-insert_same p k v w [] h q = cc
  count-insert_same p k v w ((j, u) ∷ d) h q = ground (arith, count-insert_same p k v w d)

  pub max_of-insert_same :
      (p : V → Bool) (f : V → ℕ) (k : K) (v w : V) (d : Dict K V)
      → lookup k d ≡ some w
      → p v ≡ p w
      → f v ≡ f w
      → max_of f (filter p (values (insert k v d))) ≡ max_of f (filter p (values d))
  max_of-insert_same p f k v w [] h q r = cc
  max_of-insert_same p f k v w ((j, u) ∷ d) h q r = ground (arith, max_of-insert_same p f k v w d)

  pub find-lookup :
      (p : V → Bool) (k : K) (v : V) (d : Dict K V)
      → find p (values d) ≡ none
      → lookup k d ≡ some v
      → p v ≡ false
  find-lookup p k v [] h q = cc
  find-lookup p k v ((j, w) ∷ d) h q = ground (arith, find-lookup p k v d)

  pub max_of-lookup :
      (p : V → Bool) (f : V → ℕ) (k : K) (v : V) (d : Dict K V)
      → lookup k d ≡ some v
      → p v ≡ true
      → f v ≤ max_of f (filter p (values d))
  max_of-lookup p f k v [] h q = cc
  max_of-lookup p f k v ((j, w) ∷ d) h q = ground (arith, max_of-lookup p f k v d)

  pub count-insert_flip :
      (p : V → Bool) (k : K) (v w : V) (d : Dict K V)
      → lookup k d ≡ some w
      → p w ≡ false
      → p v ≡ true
      → count p (values (insert k v d)) ≡ suc (count p (values d))
  count-insert_flip p k v w [] h q r = cc
  count-insert_flip p k v w ((j, u) ∷ d) h q r = ground (arith, count-insert_flip p k v w d)

  pub count-lookup :
      (p : V → Bool) (k : K) (v : V) (d : Dict K V)
      → lookup k d ≡ some v
      → p v ≡ true
      → 1 ≤ count p (values d)
  count-lookup p k v [] h q = cc
  count-lookup p k v ((j, w) ∷ d) h q = ground (arith, count-lookup p k v d)

  -- A value that no other value shares its test with is all that a filter leaves.
  pub filter-lookup :
      (p : V → Bool) (k : K) (v : V) (d : Dict K V)
      → lookup k d ≡ some v
      → p v ≡ true
      → count p (values d) ≤ 1
      → filter p (values d) ≡ v ∷ []
  filter-lookup p k v [] h q c = cc
  filter-lookup p k v ((j, w) ∷ d) h q c =
      ground (arith, filter-lookup p k v d, filter-none p (values d), count-lookup p k v d)

module _ {ℓ} {A : Type ℓ} (p : A → Bool) (f : A → ℕ) where
  pub max_of-append :
      (x : A) (xs : List A)
      → max_of f (filter p (xs ++ (x ∷ [])))
        ≡ (if p x then max (max_of f (filter p xs)) (f x) else max_of f (filter p xs))
  max_of-append x [] = ground arith
  max_of-append x (y ∷ xs) = ground (arith, max_of-append x xs)
