-- ===== src/Types.antt =====
-- src/core/types.ts: the kernel's data. Money is a number of minor units, an instant is the number of
-- milliseconds since the epoch of a canonical ISO-8601 string, so that `<` on strings is `<` here.
use agentworth.Prelude.{ℕ, String, Bool, true, false, Option, List}
use agentworth.Prelude.Int.{ℤ}

pub data RailKind : Type 0 where
  onchain card checkout : RailKind

pub data Reversibility : Type 0 where
  reversible irreversible : Reversibility

-- RAIL_REVERSIBILITY
abbrev pub rail_reversibility : RailKind → Reversibility
rail_reversibility card = reversible
rail_reversibility checkout = reversible
rail_reversibility onchain = irreversible

abbrev pub rail_eq : RailKind → RailKind → Bool
rail_eq onchain onchain = true
rail_eq card card = true
rail_eq checkout checkout = true
rail_eq _ _ = false

abbrev pub is_irreversible : Reversibility → Bool
is_irreversible reversible = false
is_irreversible irreversible = true

pub data PayeeScope : Type 0 where
  payee_class : String → PayeeScope
  allowlist : List String → PayeeScope

pub data Period : Type 0 where
  day week month : Period

pub data MandateStatus : Type 0 where
  active revoked : MandateStatus

pub record Mandate : Type 0 where
  pub id : String
  pub label : String
  pub scope : PayeeScope
  pub currency : String
  pub allowed_rails : List RailKind
  pub per_tx_cap : ℕ
  pub per_period_cap : ℕ
  pub period : Period
  pub granted_at : ℕ
  pub expires_at : ℕ
  pub status : MandateStatus

-- An amount as a caller may send it: a non-negative whole number, or any other JavaScript number
-- (negative, fractional, infinite, NaN).
pub data Amount : Type 0 where
  minor : ℕ → Amount
  malformed : Amount

-- The number that later code computes with; the gate lets no malformed amount get there.
abbrev pub minor_units : Amount → ℕ
minor_units (minor n) = n
minor_units malformed = 0

pub record PaymentIntent : Type 0 where
  pub id : String
  pub payee : String
  pub payee_class : String
  pub amount : Amount
  pub currency : String
  pub rail : RailKind
  pub rationale : String
  pub created_at : ℕ

pub data Attestation : Type 0 where
  unverified signed registry_attested : Attestation

pub data ReputationLevel : Type 0 where
  good neutral flagged unknown : ReputationLevel

-- src/core/trust.ts
pub data TrustLevel : Type 0 where
  new seen trusted : TrustLevel

pub data RiskTier : Type 0 where
  no_risk low medium high : RiskTier

pub data RiskReason : Type 0 where
  flagged_payee reputable_payee unverified_agent attested_agent : RiskReason
  no_history trusted_payee : RiskReason
  anomalous : ℕ → ℕ → RiskReason
  irreversible_to_novel : RiskReason

pub record SpendRisk : Type 0 where
  pub tier : RiskTier
  pub score : ℤ
  pub reasons : List RiskReason

pub data SettlementFinality : Type 0 where
  final reversible pending : SettlementFinality

pub record Receipt : Type 0 where
  pub id : String
  pub intent_id : String
  pub rail : RailKind
  pub amount : ℕ
  pub currency : String
  pub settled_at : ℕ
  pub provider_ref : String
  pub finality : SettlementFinality
  pub provider_id : Option String

pub data GateOutcome : Type 0 where
  auto_execute confirm_operator block : GateOutcome

-- riskChain.ts: the kinds of alert.
pub data AlertType : Type 0 where
  smurfing probing splitting drain_after_grant : AlertType

-- The messages of the gate and the executor, each with the values that its text shows.
pub data Reason : Type 0 where
  bad_amount : Reason
  short_rationale : ℕ → Reason
  deny_list : String → Reason
  no_live_mandate : Reason
  over_tx_cap : ℕ → String → ℕ → Reason
  over_period_budget : ℕ → Period → ℕ → ℕ → Reason
  new_payee : Reason
  velocity_ceiling : ℕ → ℕ → Reason
  elevated_risk : Reason
  within_mandate : Reason
  risk_chain : AlertType → Reason
  kill_switch_engaged : Reason
  breaker_open : ℕ → Reason
  settlement_error : String → Reason

pub data SafeFix : Type 0 where
  expand_rationale : ℕ → SafeFix
  deny_list_bypass : SafeFix
  grant_mandate : String → String → SafeFix
  increase_tx_cap : String → ℕ → SafeFix
  increase_period_cap : String → ℕ → ℕ → SafeFix
  ask_operator : String → SafeFix
  ask_operator_chain : AlertType → SafeFix

pub record GateDecision : Type 0 where
  pub outcome : GateOutcome
  pub reasons : List Reason
  pub mandate_id : Option String
  pub risk : SpendRisk
  pub remaining : Option ℕ
  pub suggested_fix : Option SafeFix

pub record GateConfig : Type 0 where
  pub min_rationale_chars : ℕ
  pub velocity_window_minutes : ℕ
  pub velocity_max_count : ℕ
  pub anomaly_multiple : ℕ

abbrev pub default_gate_config : GateConfig
default_gate_config = record {
  min_rationale_chars = 10;
  velocity_window_minutes = 60;
  velocity_max_count = 5;
  anomaly_multiple = 3;
}

pub record PriorSpend : Type 0 where
  pub amount : ℕ
  pub at : ℕ

-- What a deny rule may look at beside the intent.
pub record DenyContext : Type 0 where
  pub known_payee : String → Bool
  pub reversibility : Reversibility

pub record DenyRule : Type 0 where
  pub id : String
  pub reason : String
  pub matches : PaymentIntent → DenyContext → Bool

pub record GateContext : Type 0 where
  pub now : ℕ
  pub mandates : List Mandate
  pub period_spend : String → List PriorSpend
  pub known_payee : String → Bool
  pub trust_of : Option (String → TrustLevel)
  pub convert : Option (ℕ → String → String → Option ℕ)
  pub attestation : Option Attestation
  pub reputation_of : Option (String → Option ReputationLevel)
  pub deny_rules : List DenyRule
  pub config : GateConfig
  pub reversibility : Option Reversibility
