-- ===== src/Risk.antt =====
-- src/core/risk.ts and src/core/trust.ts: the spend-risk score, its tier, and the trust trajectory.
pub mod Tier
mod Tests
use agentworth.Prelude.{
  ℕ, zero, suc, ◌+◌, ◌-◌, ◌*◌, ◌/◌, ◌%◌, ◌&&◌, Option, some, List, [], ◌∷◌, ◌++◌, map, ltb, leb,
  ◌==◌, if◌then◌else◌, length,
}
use agentworth.Prelude.Int.{ℤ, pos, negsuc, ◌+ℤ◌, leb_ℤ}
use agentworth.Types.{
  Reversibility, irreversible, Attestation, unverified, registry_attested, ReputationLevel, good,
  flagged, TrustLevel, new, seen, trusted, RiskTier, no_risk, low, medium, high, RiskReason,
  flagged_payee, reputable_payee, unverified_agent, attested_agent, no_history, trusted_payee,
  anomalous, irreversible_to_novel, SpendRisk, GateConfig, PriorSpend,
}

-- src/core/trust.ts
pub payee_trust : ℕ → TrustLevel
payee_trust n = if leb 3 n then trusted else if leb 1 n then seen else new

-- `[...values].sort((a, b) => a - b)`
pub insert_sorted : ℕ → List ℕ → List ℕ
insert_sorted x [] = x ∷ []
insert_sorted x (y ∷ ys) = let rest = insert_sorted x ys in if leb x y then x ∷ y ∷ ys else y ∷ rest

pub sort : List ℕ → List ℕ
unfolding insert_sorted
sort [] = []
sort (x ∷ xs) = insert_sorted x (sort xs)

abbrev at_or_zero : List ℕ → ℕ → ℕ
at_or_zero [] i = 0
at_or_zero (x ∷ xs) zero = x
at_or_zero (x ∷ xs) (suc i) = at_or_zero xs i

-- The mean of the two middle values is rounded half up, as `Math.round` does.
pub median_sorted : List ℕ → ℕ
median_sorted [] = 0
median_sorted (x ∷ xs) =
    let s = x ∷ xs in
    let mid = length s / 2 in
    if length s % 2 == 0
    then (at_or_zero s (mid - 1) + at_or_zero s mid + 1) / 2
    else at_or_zero s mid

unfoldable pub median : List ℕ → ℕ
unfolding median_sorted sort
median values = median_sorted (sort values)

-- What one signal adds to the score, with its message.
abbrev pub Signal : Type 0
Signal = ℤ × List RiskReason

abbrev pub silent : Signal
silent = (pos 0, [])

pub reputation_signal : Option ReputationLevel → Signal
reputation_signal (some flagged) = (pos 2, flagged_payee ∷ [])
reputation_signal (some good) = (negsuc 0, reputable_payee ∷ [])
reputation_signal _ = silent

pub attestation_signal : Option Attestation → Signal
attestation_signal (some unverified) = (pos 1, unverified_agent ∷ [])
attestation_signal (some registry_attested) = (negsuc 0, attested_agent ∷ [])
attestation_signal _ = silent

pub trust_signal : TrustLevel → Signal
trust_signal new = (pos 2, no_history ∷ [])
trust_signal trusted = (negsuc 0, trusted_payee ∷ [])
trust_signal seen = silent

pub anomaly_signal : ℕ → ℕ → ℕ → Signal
anomaly_signal amount baseline multiple =
    if ltb 0 baseline && ltb (baseline * multiple) amount
    then (pos 2, anomalous multiple baseline ∷ [])
    else silent

pub reversibility_signal : Reversibility → TrustLevel → Signal
reversibility_signal irreversible new = (pos 1, irreversible_to_novel ∷ [])
reversibility_signal _ _ = silent

pub tier_of : ℤ → RiskTier
tier_of score =
    if leb_ℤ (pos 4) score
    then high
    else if leb_ℤ (pos 2) score
    then medium
    else if leb_ℤ (pos 1) score
    then low
    else no_risk

-- The context of `classifySpendRisk`.
pub record RiskContext : Type 0 where
  pub trust : TrustLevel
  pub period_spend : List PriorSpend
  pub config : GateConfig
  pub reversibility : Reversibility
  pub attestation : Option Attestation
  pub reputation : Option ReputationLevel

pub baseline : RiskContext → ℕ
unfolding median
baseline ctx = median (map (λ s. s.amount) ctx.period_spend)

pub signals : ℕ → RiskContext → List Signal
unfolding reputation_signal attestation_signal trust_signal anomaly_signal reversibility_signal
signals amount ctx =
    reputation_signal ctx.reputation
    ∷ attestation_signal ctx.attestation
    ∷ trust_signal ctx.trust
    ∷ anomaly_signal amount (baseline ctx) ctx.config.anomaly_multiple
    ∷ reversibility_signal ctx.reversibility ctx.trust
    ∷ []

pub total : List Signal → Signal
total [] = silent
total ((n, rs) ∷ rest) = let (m, more) = total rest in (n +ℤ m, rs ++ more)

unfoldable pub classify_spend_risk : ℕ → RiskContext → SpendRisk
unfolding tier_of signals total baseline
classify_spend_risk amount ctx =
    let (score, reasons) = total (signals amount ctx) in
    record { tier = tier_of score; score = score; reasons = reasons }
