-- ===== src/Services/Signing/Canonical.antt =====
-- The canonical text tells its lines apart, and a printed number tells the number.
use akasha_ingestion.Base.{
  ℕ, zero, suc, ◌+◌, ◌-◌, ◌*◌, ◌/◌, ◌%◌, ◌<◌, [], ◌∷◌, ◌++◌, ◌≡◌, refl, sym, ap, ◌∙◌, arith, All,
  Bool-cases, ltb, inl, inr,
}
use akasha_ingestion.Base.Text.{Text, decimal, digits_from}
use akasha_ingestion.Services.Signing.Defs.{newline}

-- A text without a line break.
abbrev pub IsLine : Text → Type 0
IsLine t = All (λ c. (c ≡ newline) → ⊥) t

pub line_split :
    (xs ys rest more : Text)
    → IsLine xs
    → IsLine ys
    → xs ++ (newline ∷ rest) ≡ ys ++ (newline ∷ more)
    → (xs ≡ ys) × (rest ≡ more)
line_split [] [] rest more p q e = (refl, cc)
line_split [] (y ∷ ys) rest more p q e = elim (q.0 cc) [ ]
line_split (x ∷ xs) [] rest more p q e = elim (p.0 cc) [ ]
line_split (x ∷ xs) (y ∷ ys) rest more p q e =
    let tails : xs ++ (newline ∷ rest) ≡ ys ++ (newline ∷ more) = cc e in
    let heads : x ≡ y = cc e in
    let both = line_split xs ys rest more p.1 q.1 tails in (cc (heads, both.0), both.1)

-- The number that digits stand for.
abbrev pub value_from : ℕ → Text → ℕ
value_from n [] = n
value_from n (c ∷ cs) = value_from (n * 10 + (c - b'0')) cs

digits_from-value :
    (fuel n : ℕ) (rest : Text)
    → n < fuel
    → value_from 0 (digits_from fuel n rest) ≡ value_from n rest
unfolding digits_from
digits_from-value zero n rest le = omega arith
digits_from-value (suc fuel) n rest le = elim (Bool-cases (ltb n 10)) [
  | inl small ↦ rw small (ap (λ k. value_from k rest) (omega arith))
  | inr large ↦ rw large (
      digits_from-value fuel (n / 10) ((b'0' + n % 10) ∷ rest) (ground arith)
      ∙ ap (λ k. value_from k rest) (ground arith))
]

-- Two numbers that are printed alike are one.
pub decimal-injective : (m n : ℕ) → decimal m ≡ decimal n → m ≡ n
unfolding decimal
decimal-injective m n same =
    sym (digits_from-value (suc m) m [] (omega arith))
    ∙ ap (value_from 0) same
    ∙ digits_from-value (suc n) n [] (omega arith)

digits_from-IsLine : (fuel n : ℕ) (rest : Text) → IsLine rest → IsLine (digits_from fuel n rest)
unfolding digits_from
digits_from-IsLine zero n rest line = line
digits_from-IsLine (suc fuel) n rest line = elim (Bool-cases (ltb n 10)) [
  | inl small ↦ rw small ((λ e. omega arith), line)
  | inr large ↦
      rw large
        (digits_from-IsLine fuel (n / 10) ((b'0' + n % 10) ∷ rest) ((λ e. omega arith), line))
]

pub decimal-IsLine : (n : ℕ) → IsLine (decimal n)
unfolding decimal
decimal-IsLine n = digits_from-IsLine (suc n) n [] tt
