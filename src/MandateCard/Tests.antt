-- ===== src/MandateCard/Tests.antt =====
-- Runs of the cards of src/core/mandateCard.ts.
use agentworth.Prelude.{
  ℕ, ◌*◌, ◌≤◌, ◌≡◌, ◌↔◌, refl, String, true, false, none, some, List, [], ◌∷◌, In, inl, inr, arith,
  length,
}
use agentworth.Types.{day, card, minor, PaymentIntent, allowlist, Mandate}
use agentworth.Examples.{groceries, shop}
use agentworth.MandateCard.{
  SpendCardRequiredMandate, SpendMandateCard, generate_spend_card, compare_spend_card, missing_of,
  satisfies, derive_spend_card, required_for, groups_of, sort_groups, insert_group, sort_spends,
  insert_spend, max_amount, max_rolling_period_sum, sum_until, Group, Spend, period_ms,
}
use agentworth.MandateCard.Cover.{Covered, compare_spend_card-IsExact}
use agentworth.MandateCard.Window.{spent_in, required_for-covers}

-- A card that asks for more than the mandate allows.
abbrev greedy : SpendMandateCard
greedy = generate_spend_card "a1" (record groceries { per_tx_cap = 1_000_000 } ∷ [])

greedy_uncovered : (compare_spend_card greedy (groceries ∷ [])).covers ≡ false
unfolding compare_spend_card generate_spend_card missing_of satisfies
greedy_uncovered = refl

compare_spend_card-IsExact_example :
    (((compare_spend_card greedy (groceries ∷ [])).covers ≡ true)
      ↔ ((compare_spend_card greedy (groceries ∷ [])).missing ≡ []))
    × ((req : SpendCardRequiredMandate)
        → In req (compare_spend_card greedy (groceries ∷ [])).missing
          ↔ (In req greedy.required_mandates × ¬ Covered (groceries ∷ []) req))
compare_spend_card-IsExact_example = compare_spend_card-IsExact greedy (groceries ∷ [])

-- A card generated from a mandate for an allowlist asks for the class "custom", which no mandate has.
abbrev named : Mandate
named = record groceries { scope = allowlist ("tesco" ∷ []) }

allowlist_uncovered :
    (compare_spend_card (generate_spend_card "a1" (named ∷ [])) (named ∷ [])).covers ≡ false
unfolding compare_spend_card generate_spend_card missing_of satisfies
allowlist_uncovered = refl

abbrev at_hour : ℕ → ℕ → PaymentIntent
at_hour h n = record shop { amount = minor n; created_at = h * 3_600_000 }

-- Two payments within a day, and a third the day after.
derived :
    derive_spend_card
      (λ n. n)
      (at_hour 10 300 ∷ at_hour 0 500 ∷ at_hour 40 400 ∷ [])
      none
      (some day)
    ≡ record {
      agent_id = "derived-agent";
      required_mandates =
          record {
            payee_class = "groceries";
            currency = "GBP";
            suggested_per_tx_cap = 500;
            suggested_per_period_cap = 800;
            period = day;
            rails = card ∷ [];
          }
          ∷ [];
    }
unfolding derive_spend_card required_for groups_of sort_groups insert_group sort_spends insert_spend
    max_amount max_rolling_period_sum sum_until agentworth.Prelude.Map.set
    agentworth.Prelude.Map.get
derived = refl

abbrev shops : Group
shops = record {
  payee_class = "groceries";
  currency = "GBP";
  rails = card ∷ [];
  spends = record { amount = 300; t = 36_000_000 } ∷ record { amount = 500; t = 0 } ∷ [];
}

required_for-covers_example :
    let req = required_for (λ n. n) day shops in
    ((x : Spend) → In x shops.spends → x.amount ≤ req.suggested_per_tx_cap)
    × ((from : ℕ) → spent_in from (period_ms day) shops.spends ≤ req.suggested_per_period_cap)
    × (req.suggested_per_tx_cap ≤ req.suggested_per_period_cap)
required_for-covers_example = required_for-covers (λ n. n) day shops (λ n. omega arith) (λ m n h. h)
