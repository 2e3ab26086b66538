-- ===== src/Base/Text.antt =====
-- A text as its code points, where the source searches in it or builds it.
use Prim.Native.Nat.{ℕ, zero, suc, ◌+◌, ◌/◌, ◌%◌}
use Prim.Native.Char.{code}
use Prim.Native.String.{String}
use mathlib.Core.Bool.{Bool, true, false, ◌&&◌, ◌||◌}
use mathlib.Core.List.{List, [], ◌∷◌, ◌++◌, map}
use akasha_ingestion.Base.Tests.{leb, ltb, nat_beq, if◌then◌else◌}

abbrev pub Text : Type 0
Text = List ℕ

-- The code points of a literal.
abbrev pub codes : String → Text
codes String.[] = []
codes (String.◌∷◌ c s) = code c ∷ codes s

abbrev pub starts_with : Text → Text → Bool
starts_with text [] = true
starts_with [] (p ∷ pattern) = false
starts_with (c ∷ text) (p ∷ pattern) = nat_beq c p && starts_with text pattern

-- `pattern in text`
abbrev pub contains : Text → Text → Bool
contains [] pattern = starts_with [] pattern
contains (c ∷ text) pattern = starts_with (c ∷ text) pattern || contains text pattern

-- `text.encode("utf-8")`, of one code point and of a text.
abbrev pub utf8_point : ℕ → List ℕ
utf8_point c =
    if ltb c 128
    then c ∷ []
    else if ltb c 2048
    then (192 + c / 64) ∷ (128 + c % 64) ∷ []
    else if ltb c 65536
    then (224 + c / 4096) ∷ (128 + c / 64 % 64) ∷ (128 + c % 64) ∷ []
    else (240 + c / 262144) ∷ (128 + c / 4096 % 64) ∷ (128 + c / 64 % 64) ∷ (128 + c % 64) ∷ []

abbrev pub utf8 : Text → List ℕ
utf8 [] = []
utf8 (c ∷ text) = utf8_point c ++ utf8 text

-- `text.lower()` on ASCII, which all the messages of the source are.
abbrev pub lower_code : ℕ → ℕ
lower_code c = if leb b'A' c && leb c b'Z' then c + 32 else c

abbrev pub lower : Text → Text
lower = map lower_code

-- `str(n)`: a number below `10 ^ fuel` has at most `fuel` digits.
unfoldable pub digits_from : ℕ → ℕ → Text → Text
digits_from zero n rest = rest
digits_from (suc fuel) n rest =
    let more = digits_from fuel (n / 10) ((b'0' + n % 10) ∷ rest) in
    if ltb n 10 then (b'0' + n) ∷ rest else more

unfoldable pub decimal : ℕ → Text
unfolding digits_from
decimal n = digits_from (suc n) n []
