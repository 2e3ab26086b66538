-- ===== src/Base/Dict/Growth.antt =====
-- A dict that grows at its end.
use akasha_ingestion.Base.Tests.{Bool-cases}
use akasha_ingestion.Base.Equality.{Keyed, ◌==◌}
use akasha_ingestion.Base.Lists.{any, find}
use akasha_ingestion.Base.Dict.{Dict, values, lookup, insert}
use mathlib.Core.Path.{◌≡◌, refl, ap}
use mathlib.Core.Logic.{◌≢◌, inl, inr}
use mathlib.Core.Bool.{Bool, false, ◌||◌}
use mathlib.Core.List.{List, [], ◌∷◌, ◌++◌}
use mathlib.Core.Option.{none, some}
use native.Mathlib.Omega.{arith}

module _ {ℓ} {A : Type ℓ} (p : A → Bool) where
  pub any-append : (xs ys : List A) → any p (xs ++ ys) ≡ (any p xs || any p ys)
  any-append [] ys = refl
  any-append (x ∷ xs) ys = ground (arith, any-append xs ys)

  pub find-any :
      (q : A → Bool) (xs : List A)
      → ((x : A) → q x ≡ false → p x ≡ false)
      → any q xs ≡ false
      → find p xs ≡ none
  find-any q [] weaker h = refl
  find-any q (x ∷ xs) weaker h = ground (arith, weaker x, find-any q xs weaker)

module _ {ℓ κ} {K : Type ℓ} {V : Type κ} where
  pub values-append : (c d : Dict K V) → values (c ++ d) ≡ values c ++ values d
  values-append [] d = refl
  values-append ((k, v) ∷ c) d = ap (λ vs. v ∷ vs) (values-append c d)

module _ {ℓ κ} {K : Type ℓ} {V : Type κ} ⦃e : Keyed K⦄ where
  pub insert_new :
      (k : K) (v : V) (d : Dict K V) → lookup k d ≡ none → insert k v d ≡ d ++ ((k, v) ∷ [])
  insert_new k v [] h = refl
  insert_new k v ((j, w) ∷ d) h = ground (arith, insert_new k v d)

  pub insert_last :
      (k : K) (v w : V) (d : Dict K V)
      → lookup k d ≡ none
      → insert k v (d ++ ((k, w) ∷ [])) ≡ d ++ ((k, v) ∷ [])
  insert_last k v w [] h = ground (arith, e.same_iff k k)
  insert_last k v w ((j, u) ∷ d) h = ground (arith, insert_last k v w d)

  pub lookup_last :
      (k : K) (v : V) (d : Dict K V) → lookup k d ≡ none → lookup k (d ++ ((k, v) ∷ [])) ≡ some v
  lookup_last k v [] h = ground (arith, e.same_iff k k)
  lookup_last k v ((j, u) ∷ d) h = ground (arith, lookup_last k v d)

  pub lookup_other :
      (k j : K) (v : V) (d : Dict K V)
      → lookup j d ≡ none
      → k ≢ j
      → lookup j (d ++ ((k, v) ∷ [])) ≡ none
  lookup_other k j v [] h ne = ground (arith, e.same_iff k j)
  lookup_other k j v ((i, u) ∷ d) h ne = elim (Bool-cases (i == j)) [
    | inl found ↦ cc (rw found at h)
    | inr other ↦ rw other (lookup_other k j v d (rw other at h) ne)
  ]
