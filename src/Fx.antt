-- ===== src/Fx.antt =====
-- src/core/fx.ts. A rate is a fraction of whole numbers, and it is multiplied and rounded exactly, where
-- the source has a double that `Math.round` reads: near a half the two may differ by one minor unit;
-- `upper` stands for the runtime's `toUpperCase`.
mod Tests
use agentworth.Prelude.{
  ℕ, ◌+◌, ◌*◌, ◌/◌, ◌^◌, String, Bool, ◌||◌, Option, none, some, List, [], ◌∷◌, str_eq, any,
  if◌then◌else◌, get_or,
}

-- Units of the target currency for one unit of the source currency.
pub record Rate : Type 0 where
  pub num : ℕ
  pub den : ℕ

-- `Math.round` of the quotient: half is rounded up.
unfoldable pub round_div : ℕ → ℕ → ℕ
round_div a b = (2 * a + b) / (2 * b)

unfoldable pub convert_minor : ℕ → Rate → ℕ
unfolding round_div
convert_minor amount r = round_div (amount * r.num) r.den

abbrev one_of : List String → String → Bool
one_of names c = any (λ n. str_eq n c) names

-- MINOR_UNIT_EXPONENT
unfoldable pub iso_exponent : String → Option ℕ
iso_exponent c =
    if one_of ("JPY" ∷ "KRW" ∷ "CLP" ∷ "ISK" ∷ "VND" ∷ "XOF" ∷ "XAF" ∷ "XPF" ∷ []) c
    then some 0
    else if one_of ("BHD" ∷ "KWD" ∷ "OMR" ∷ "TND" ∷ "JOD" ∷ "IQD" ∷ "LYD" ∷ []) c
    then some 3
    else none

-- Decimals of the operator's tokens, by upper-case symbol.
abbrev pub TokenDecimals : Type 0
TokenDecimals = String → Option ℕ

abbrev pub no_tokens : TokenDecimals
no_tokens c = none

unfoldable pub minor_unit_exponent : (String → String) → String → TokenDecimals → ℕ
unfolding iso_exponent
minor_unit_exponent upper currency tokens =
    get_or (tokens (upper currency)) (get_or (iso_exponent (upper currency)) 2)

unfoldable pub convert_minor_cross_decimal :
    (String → String) → ℕ → Rate → String → String → TokenDecimals → ℕ
unfolding round_div
convert_minor_cross_decimal upper amount r source target tokens =
    round_div (amount * r.num * 10 ^ minor_unit_exponent upper target tokens)
      (r.den * 10 ^ minor_unit_exponent upper source tokens)
