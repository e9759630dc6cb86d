-- ===== src/Risk/Tests.antt =====
-- A payment to an unknown payee whose amount is far above the median.
use agentworth.Prelude.{ℕ, ◌≡◌, refl, ◌⊎◌, Option, none, some, [], ◌∷◌}
use agentworth.Types.{new, flagged, high, Reversibility, default_gate_config}
use agentworth.Risk.{
  RiskContext, classify_spend_risk, signals, total, baseline, median, median_sorted, sort, tier_of,
  reputation_signal, attestation_signal, trust_signal, anomaly_signal, reversibility_signal,
  insert_sorted,
}
use agentworth.Risk.Tier.{classify_spend_risk-high}

abbrev splurge : RiskContext
splurge = record {
  trust = new;
  period_spend = record { amount = 1000; at = 0 } ∷ [];
  config = default_gate_config;
  reversibility = Reversibility.irreversible;
  attestation = none;
  reputation = none;
}

splurge-high : (classify_spend_risk 9000 splurge).tier ≡ high
unfolding classify_spend_risk signals total baseline median median_sorted sort insert_sorted tier_of
    reputation_signal attestation_signal trust_signal anomaly_signal reversibility_signal
    agentworth.Prelude.Int.◌+ℤ◌
splurge-high = refl

classify_spend_risk-high_example : (splurge.trust ≡ new) ⊎ (splurge.reputation ≡ some flagged)
classify_spend_risk-high_example = classify_spend_risk-high 9000 splurge splurge-high
