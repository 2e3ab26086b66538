-- ===== src/Base/Equality.antt =====
-- The source's `==` on keys, as an interface with one instance for each type of key.
use Prim.Native.Nat.{ℕ}
use Prim.Native.String.{String, compare}
use mathlib.Core.Path.{◌≡◌, refl}
use mathlib.Core.Logic.{◌↔◌, ◌≢◌}
use mathlib.Core.Bool.{Bool, true, false, not, ◌&&◌}
use mathlib.Core.Option.{Option, none, some}
use mathlib.Core.List.{List, [], ◌∷◌}
use native.Mathlib.Omega.{arith}
use text.Mathlib.Text.{is_lt}
use text.Mathlib.TextEquality.{eq_iff}
use akasha_ingestion.Base.Tests.{nat_beq, nat_beq_iff}
use text.Mathlib.Text

-- A type of keys: a test whose answer is `true` on equal keys and on no others.
pub record Keyed {ℓ} (K : Type ℓ) : Type ℓ where
  pub same : K → K → Bool
  pub same_iff : (k j : K) → (same k j ≡ true) ↔ (k ≡ j)

abbrev pub ◌==◌ {ℓ} : {K : Type ℓ} ⦃keyed : Keyed K⦄ → K → K → Bool
◌==◌ ⦃keyed⦄ k j = keyed.same k j

infix 50 ◌==◌
instance abbrev pub string_eq : Keyed String
string_eq = record { same = Text.◌==◌; same_iff = eq_iff }

instance abbrev pub nat_eq : Keyed ℕ
nat_eq = record { same = nat_beq; same_iff = nat_beq_iff }

module _ {ℓ κ} {K : Type ℓ} {J : Type κ} ⦃e : Keyed K⦄ ⦃f : Keyed J⦄ where
  abbrev pub pair_beq : K × J → K × J → Bool
  pair_beq (a, b) (c, d) = a == c && b == d

  pub pair_beq_iff : (p q : K × J) → (pair_beq p q ≡ true) ↔ (p ≡ q)
  pair_beq_iff (a, b) (c, d) = ground (arith, e.same_iff a c, f.same_iff b d)

  instance abbrev pub pair_eq : Keyed (K × J)
  pair_eq = record { same = pair_beq; same_iff = pair_beq_iff }

-- Booleans, and what may be missing, and lists.
abbrev pub bool_beq : Bool → Bool → Bool
bool_beq true b = b
bool_beq false b = not b

pub bool_beq_iff : (a b : Bool) → (bool_beq a b ≡ true) ↔ (a ≡ b)
bool_beq_iff true b = ground arith
bool_beq_iff false b = ground arith

instance abbrev pub bool_eq : Keyed Bool
bool_eq = record { same = bool_beq; same_iff = bool_beq_iff }

module _ {ℓ} {K : Type ℓ} ⦃e : Keyed K⦄ where
  abbrev pub option_beq : Option K → Option K → Bool
  option_beq none none = true
  option_beq none (some b) = false
  option_beq (some a) none = false
  option_beq (some a) (some b) = a == b

  pub option_beq_iff : (a b : Option K) → (option_beq a b ≡ true) ↔ (a ≡ b)
  option_beq_iff none none = ground arith
  option_beq_iff none (some b) = ground arith
  option_beq_iff (some a) none = ground arith
  option_beq_iff (some a) (some b) = ground (arith, e.same_iff a b)

  instance abbrev pub option_eq : Keyed (Option K)
  option_eq = record { same = option_beq; same_iff = option_beq_iff }

  abbrev pub list_beq : List K → List K → Bool
  list_beq [] [] = true
  list_beq [] (b ∷ bs) = false
  list_beq (a ∷ rest) [] = false
  list_beq (a ∷ rest) (b ∷ bs) = a == b && list_beq rest bs

  pub list_beq_iff : (a b : List K) → (list_beq a b ≡ true) ↔ (a ≡ b)
  list_beq_iff [] [] = ground arith
  list_beq_iff [] (b ∷ bs) = ground arith
  list_beq_iff (a ∷ rest) [] = ground arith
  list_beq_iff (a ∷ rest) (b ∷ bs) = ground (arith, e.same_iff a b, list_beq_iff rest bs)

  instance abbrev pub list_eq : Keyed (List K)
  list_eq = record { same = list_beq; same_iff = list_beq_iff }

-- Python's `<` on texts, by code points.
unfoldable pub text_lt : String → String → Bool
text_lt a b = is_lt (compare a b)

module _ {ℓ} {K : Type ℓ} ⦃e : Keyed K⦄ where
  pub beq_refl : (k : K) → (k == k) ≡ true
  beq_refl k = (e.same_iff k k).1 refl

  pub beq_ne : (k j : K) → k ≢ j → (k == j) ≡ false
  beq_ne k j ne = ground (arith, e.same_iff k j)

  pub beq_sym : (k j : K) → (k == j) ≡ (j == k)
  beq_sym k j = ground (arith, e.same_iff k j, e.same_iff j k)
