-- ===== src/Prelude/Text.antt =====
-- Texts as lists of code points, and `trim` and `length` of JavaScript strings.
use Prim.Native.Char.{Char, code}
use Prim.Native.String.{String}
use Prim.Native.Nat.{ℕ, ◌+◌, ◌-◌, ◌/◌, ◌%◌}
use mathlib.Core.Bool.{Bool, true, false, ◌&&◌, ◌||◌}
use mathlib.Core.List.{List, [], ◌∷◌, ◌++◌, reverse}
use agentworth.Prelude.Tests.{leb, ltb, ◌==◌, if◌then◌else◌}

abbrev pub codes : String → List ℕ
codes String.[] = []
codes (String.◌∷◌ c s) = code c ∷ codes s

-- White space and line ends, as `trim` strips them.
unfoldable pub is_space : ℕ → Bool
is_space c =
    (leb 9 c && leb c 13)
    || c == 32
    || c == 0xa0
    || c == 0x1680
    || (leb 0x2000 c && leb c 0x200a)
    || (leb 0x2028 c && leb c 0x2029)
    || c == 0x202f
    || c == 0x205f
    || c == 0x3000
    || c == 0xfeff

unfoldable pub trim_start : List ℕ → List ℕ
trim_start [] = []
trim_start (c ∷ s) = let rest = trim_start s in if is_space c then rest else c ∷ s

unfoldable pub trim : List ℕ → List ℕ
unfolding is_space trim_start
trim s = reverse (trim_start (reverse (trim_start s)))

-- `length` counts UTF-16 units: a code point beyond the basic plane is two.
unfoldable pub utf16_length : List ℕ → ℕ
utf16_length [] = 0
utf16_length (c ∷ s) = (if ltb c 0x10000 then 1 else 2) + utf16_length s

-- The UTF-16 units that `charCodeAt` gives.
unfoldable pub char_units : Char → List ℕ
char_units c =
    if ltb (code c) 0x10000
    then code c ∷ []
    else (0xd800 + (code c - 0x10000) / 0x400) ∷ (0xdc00 + (code c - 0x10000) % 0x400) ∷ []

unfoldable pub units : String → List ℕ
units String.[] = []
units (String.◌∷◌ c s) = char_units c ++ units s

-- `<` of texts, by their units.
unfoldable pub units_before : List ℕ → List ℕ → Bool
units_before xs [] = false
units_before [] (y ∷ ys) = true
units_before (x ∷ xs) (y ∷ ys) = let rest = units_before xs ys in if x == y then rest else ltb x y
