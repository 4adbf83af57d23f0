-- ===== src/Base/Text.antt =====
-- Text as the list of its bytes, and numbers in decimal.
use Prim.Native.Nat.{ℕ, zero, suc, ◌+◌, ◌/◌, ◌%◌}
use Prim.Native.Char.{code}
use Prim.Native.String.{String}
use mathlib.Core.List.{List, [], ◌∷◌, ◌++◌}
use package.rust_mine.Base.Tests.{ltb, if◌then◌else◌}
use package.rust_mine.Base.Int.{ℤ, pos, negsuc}

-- The code points of a text: its bytes, as all texts here are ASCII.
abbrev pub codes : String → List ℕ
codes String.[] = []
codes (String.◌∷◌ c s) = code c ∷ codes s

-- Decimal digits, at most as many as the rounds.
abbrev pub digits : ℕ → ℕ → List ℕ
digits zero n = []
digits (suc rounds) n =
    let front = digits rounds (n / 10) in
    if ltb n 10 then (48 + n) ∷ [] else front ++ (48 + n % 10) ∷ []

-- `{}` of an i64: 20 digits are enough.
abbrev pub decimal : ℤ → List ℕ
decimal (pos n) = digits 20 n
decimal (negsuc n) = 45 ∷ digits 20 (n + 1)
