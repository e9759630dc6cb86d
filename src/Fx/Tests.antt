-- ===== src/Fx/Tests.antt =====
-- Runs of the conversion on concrete amounts.
use agentworth.Prelude.{◌≡◌, refl}
use agentworth.Fx.{
  Rate, convert_minor_cross_decimal, no_tokens, round_div, minor_unit_exponent, iso_exponent,
}

-- 0.0052 pounds for a yen.
abbrev yen_in_pounds : Rate
yen_in_pounds = record { num = 52; den = 10_000 }

yen : convert_minor_cross_decimal (λ c. c) 1250 yen_in_pounds "JPY" "GBP" no_tokens ≡ 650
unfolding convert_minor_cross_decimal round_div minor_unit_exponent iso_exponent
yen = refl
