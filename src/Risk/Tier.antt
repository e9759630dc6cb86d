-- ===== src/Risk/Tier.antt =====
-- When src/core/risk.ts rates a payment as a high risk.
use agentworth.Prelude.{ℕ, ◌+◌, ◌≤◌, ◌≡◌, refl, ◌⊎◌, inl, inr, Option, none, some, arith}
use agentworth.Prelude.Int.{ℤ, pos, pos_part, neg_part, ◌+ℤ◌, +ℤ_parts}
use agentworth.Types.{
  Attestation, unverified, signed, registry_attested, ReputationLevel, good, neutral, flagged,
  unknown, TrustLevel, new, seen, trusted, Reversibility, reversible, irreversible, high,
}
use agentworth.Risk.{
  Signal, reputation_signal, attestation_signal, trust_signal, anomaly_signal, reversibility_signal,
  tier_of, RiskContext, baseline, signals, total, classify_spend_risk,
}

-- A signal raises the score by at most `n`.
abbrev Raises : ℕ → Signal → Type 0
Raises n s = pos_part s.0 ≤ n + neg_part s.0

reputation_signal-Raises :
    (r : Option ReputationLevel) → (r ≡ some flagged) ⊎ Raises 0 (reputation_signal r)
unfolding reputation_signal
reputation_signal-Raises (some flagged) = inl refl
reputation_signal-Raises (some good) = inr (omega arith)
reputation_signal-Raises (some neutral) = inr (omega arith)
reputation_signal-Raises (some unknown) = inr (omega arith)
reputation_signal-Raises none = inr (omega arith)

attestation_signal-Raises : (a : Option Attestation) → Raises 1 (attestation_signal a)
unfolding attestation_signal
attestation_signal-Raises none = omega arith
attestation_signal-Raises (some unverified) = omega arith
attestation_signal-Raises (some signed) = omega arith
attestation_signal-Raises (some registry_attested) = omega arith

trust_signal-Raises :
    (r : Reversibility) (t : TrustLevel)
    → (t ≡ new) ⊎ (Raises 0 (trust_signal t) × Raises 0 (reversibility_signal r t))
unfolding trust_signal reversibility_signal
trust_signal-Raises r new = inl refl
trust_signal-Raises reversible seen = inr (omega arith, omega arith)
trust_signal-Raises irreversible seen = inr (omega arith, omega arith)
trust_signal-Raises reversible trusted = inr (omega arith, omega arith)
trust_signal-Raises irreversible trusted = inr (omega arith, omega arith)

anomaly_signal-Raises : (n b k : ℕ) → Raises 2 (anomaly_signal n b k)
unfolding anomaly_signal
anomaly_signal-Raises n b k = ground arith

tier_of-high : (s : ℤ) → tier_of s ≡ high → 4 + neg_part s ≤ pos_part s
unfolding tier_of
tier_of-high s h = ground arith

-- A payment to a payee that has a history and is not flagged is never rated a high risk, whoever
-- acts, whatever the amount and however it settles.
pub classify_spend_risk-high :
    (amount : ℕ) (ctx : RiskContext)
    → (classify_spend_risk amount ctx).tier ≡ high
    → (ctx.trust ≡ new) ⊎ (ctx.reputation ≡ some flagged)
unfolding classify_spend_risk signals total
classify_spend_risk-high amount ctx h = elim (trust_signal-Raises ctx.reversibility ctx.trust) [
  | inl e ↦ inl e
  | inr (calm, tame) ↦ elim (reputation_signal-Raises ctx.reputation) [
    | inl e ↦ inr e
    | inr fair ↦
        let s1 = (reputation_signal ctx.reputation).0 in
        let s2 = (attestation_signal ctx.attestation).0 in
        let s3 = (trust_signal ctx.trust).0 in
        let s4 = (anomaly_signal amount (baseline ctx) ctx.config.anomaly_multiple).0 in
        let s5 = (reversibility_signal ctx.reversibility ctx.trust).0 in
        absurd (
          omega (
            arith,
            tier_of-high (s1 +ℤ (s2 +ℤ (s3 +ℤ (s4 +ℤ (s5 +ℤ pos 0))))) h,
            fair,
            calm,
            tame,
            attestation_signal-Raises ctx.attestation,
            anomaly_signal-Raises amount (baseline ctx) ctx.config.anomaly_multiple,
            +ℤ_parts s5 (pos 0),
            +ℤ_parts s4 (s5 +ℤ pos 0),
            +ℤ_parts s3 (s4 +ℤ (s5 +ℤ pos 0)),
            +ℤ_parts s2 (s3 +ℤ (s4 +ℤ (s5 +ℤ pos 0))),
            +ℤ_parts s1 (s2 +ℤ (s3 +ℤ (s4 +ℤ (s5 +ℤ pos 0)))),
          ))
  ]
]
