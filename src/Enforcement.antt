-- ===== src/Enforcement.antt =====
-- src/core/enforcement.ts: the disclosed policy, its hash, and the replay of a recorded decision. The
-- hash of the canonical JSON text (the disclosure package and SHA-256) is an argument.
pub mod Replay
mod Tests
use Prim.Native.Nat.{Ordering}
use Prim.Native.String.{compare}
use agentworth.Prelude.{
  ℕ, String, Bool, true, false, ◌&&◌, Option, none, some, List, [], ◌∷◌, map, ◌==◌, str_eq,
  if◌then◌else◌, get_or, any,
}
use agentworth.Types.{
  Mandate, RailKind, onchain, card, checkout, Reversibility, PayeeScope, Period, MandateStatus,
  GateConfig, DenyRule, GateContext, GateDecision, PaymentIntent, TrustLevel, ReputationLevel,
  PriorSpend, GateOutcome, auto_execute, confirm_operator, block, RiskTier, no_risk, low, medium,
  high,
}
use agentworth.Gate.{evaluate_gate}
use agentworth.Fx.{Rate, convert_minor_cross_decimal, no_tokens}
use agentworth.Audit.{
  AuditEventType, gate_decision, Payload, decided, DecisionPayload, AuditEntry, ReplayInputs,
  UsedRate,
}

-- `a < b ? -1 : …` on texts.
abbrev before : String → String → Bool
before a b = elim (compare a b) [ Ordering.gt ↦ false | _ ↦ true ]

unfoldable pub insert_mandate_by_id : Mandate → List Mandate → List Mandate
insert_mandate_by_id m [] = m ∷ []
insert_mandate_by_id m (n ∷ ms) =
    let rest = insert_mandate_by_id m ms in if before m.id n.id then m ∷ n ∷ ms else n ∷ rest

unfoldable pub sort_mandates : List Mandate → List Mandate
unfolding insert_mandate_by_id
sort_mandates [] = []
sort_mandates (m ∷ ms) = insert_mandate_by_id m (sort_mandates ms)

insert_text : String → List String → List String
insert_text t [] = t ∷ []
insert_text t (u ∷ us) = let rest = insert_text t us in if before t u then t ∷ u ∷ us else u ∷ rest

unfoldable pub sort_texts : List String → List String
unfolding insert_text
sort_texts [] = []
sort_texts (t ∷ ts) = insert_text t (sort_texts ts)

-- The names of the rails in their text order: card, checkout, onchain.
abbrev rail_rank : RailKind → ℕ
rail_rank card = 0
rail_rank checkout = 1
rail_rank onchain = 2

insert_rail : RailKind → List RailKind → List RailKind
insert_rail r [] = r ∷ []
insert_rail r (q ∷ qs) =
    let rest = insert_rail r qs in
    elim (Prim.Native.Nat.compare (rail_rank r) (rail_rank q)) [
      | Ordering.gt ↦ q ∷ rest
      | _ ↦ r ∷ q ∷ qs
    ]

unfoldable pub sort_rails : List RailKind → List RailKind
unfolding insert_rail
sort_rails [] = []
sort_rails (r ∷ rs) = insert_rail r (sort_rails rs)

pub record RiskConfig : Type 0 where
  pub velocity_window_minutes : ℕ
  pub velocity_max_count : ℕ
  pub anomaly_multiple : ℕ

pub record EffectivePolicy : Type 0 where
  pub mandates : List Mandate
  pub gate_config : GateConfig
  pub deny_rule_ids : List String
  pub risk_config : RiskConfig

unfoldable pub effective_policy : List Mandate → GateConfig → List DenyRule → EffectivePolicy
unfolding sort_mandates sort_texts
effective_policy mandates config rules = record {
  mandates = sort_mandates mandates;
  gate_config = config;
  deny_rule_ids = sort_texts (map (λ r. r.id) rules);
  risk_config = record {
    velocity_window_minutes = config.velocity_window_minutes;
    velocity_max_count = config.velocity_max_count;
    anomaly_multiple = config.anomaly_multiple;
  };
}

-- What of a mandate the policy hash commits to: all but the label and the time of the grant.
pub record PolicyMandate : Type 0 where
  pub id : String
  pub scope : PayeeScope
  pub currency : String
  pub allowed_rails : List RailKind
  pub per_tx_cap : ℕ
  pub per_period_cap : ℕ
  pub period : Period
  pub expires_at : ℕ
  pub status : MandateStatus

pub record NormalPolicy : Type 0 where
  pub mandates : List PolicyMandate
  pub gate_config : GateConfig
  pub deny_rule_ids : List String
  pub risk_config : RiskConfig

project : Mandate → PolicyMandate
unfolding sort_rails
project m = record {
  id = m.id;
  scope = m.scope;
  currency = m.currency;
  allowed_rails = sort_rails m.allowed_rails;
  per_tx_cap = m.per_tx_cap;
  per_period_cap = m.per_period_cap;
  period = m.period;
  expires_at = m.expires_at;
  status = m.status;
}

unfoldable pub normalized : EffectivePolicy → NormalPolicy
unfolding sort_mandates sort_texts project
normalized p = record {
  mandates = map project (sort_mandates p.mandates);
  gate_config = p.gate_config;
  deny_rule_ids = sort_texts p.deny_rule_ids;
  risk_config = p.risk_config;
}

-- `computePolicyHash`
unfoldable pub compute_policy_hash : (NormalPolicy → String) → EffectivePolicy → String
unfolding normalized
compute_policy_hash hash policy = hash (normalized policy)

pub record DecisionRecord : Type 0 where
  pub intent : PaymentIntent
  pub ctx_digest : String
  pub verdict : GateDecision
  pub policy_hash : String
  pub at : ℕ
  pub inputs : ReplayInputs

record_from : ℕ → AuditEventType → Payload → Option DecisionRecord
record_from ts gate_decision (decided d) = some (record {
  intent = d.intent;
  ctx_digest = d.ctx_digest;
  verdict = d.verdict;
  policy_hash = d.policy_hash;
  at = ts;
  inputs = d.inputs;
})
record_from ts _ _ = none

-- `decisionRecordFromAuditEntry`: only the agent's decisions carry what a replay needs.
unfoldable pub decision_record_from_audit_entry : AuditEntry → Option DecisionRecord
unfolding record_from
decision_record_from_audit_entry e = record_from e.ts e.type e.payload

abbrev pub look_up_spend : String → List (String × List PriorSpend) → List PriorSpend
look_up_spend id [] = []
look_up_spend id ((m, spend) ∷ rest) =
    let more = look_up_spend id rest in if str_eq m id then spend else more

abbrev pub look_up_rate : String → String → List UsedRate → Option Rate
look_up_rate source target [] = none
look_up_rate source target (u ∷ us) =
    let more = look_up_rate source target us in
    if str_eq u.source source && str_eq u.target target then some u.rate else more

-- The source leaves `fxRates` out where no rate was used; then there is no converter.
abbrev pub replay_converter :
    (String → String) → List UsedRate → Option (ℕ → String → String → Option ℕ)
replay_converter upper [] = none
replay_converter upper (u ∷ us) = some (λ amount source target.
    elim (look_up_rate source target (u ∷ us)) [
      | none ↦ none
      | some r ↦ some (convert_minor_cross_decimal upper amount r source target no_tokens)
    ])

abbrev pub replay_reputation : Option ReputationLevel → Option (String → Option ReputationLevel)
replay_reputation none = none
replay_reputation (some level) = some (λ payee. some level)

unfoldable pub replay_context :
    (String → String) → DecisionRecord → EffectivePolicy → List DenyRule → GateContext
replay_context upper r policy rules = record {
  now = r.at;
  mandates = policy.mandates;
  period_spend = λ id. look_up_spend id r.inputs.period_spend;
  known_payee = λ payee. any (λ p. str_eq p payee) r.inputs.known_payees;
  trust_of = some (λ payee. r.inputs.trust);
  convert = replay_converter upper r.inputs.fx_rates;
  attestation = r.inputs.attestation;
  reputation_of = replay_reputation r.inputs.reputation;
  deny_rules = rules;
  config = policy.gate_config;
  reversibility = some r.inputs.reversibility;
}

abbrev pub outcome_eq : GateOutcome → GateOutcome → Bool
outcome_eq auto_execute auto_execute = true
outcome_eq confirm_operator confirm_operator = true
outcome_eq block block = true
outcome_eq _ _ = false

abbrev pub tier_eq : RiskTier → RiskTier → Bool
tier_eq no_risk no_risk = true
tier_eq low low = true
tier_eq medium medium = true
tier_eq high high = true
tier_eq _ _ = false

abbrev pub option_text_eq : Option String → Option String → Bool
option_text_eq none none = true
option_text_eq (some a) (some b) = str_eq a b
option_text_eq _ _ = false

abbrev pub option_ℕ_eq : Option ℕ → Option ℕ → Bool
option_ℕ_eq none none = true
option_ℕ_eq (some a) (some b) = a == b
option_ℕ_eq _ _ = false

-- `verdictsEqual`: the reasons are no part of the claim.
unfoldable pub verdicts_equal : GateDecision → GateDecision → Bool
verdicts_equal a b =
    outcome_eq a.outcome b.outcome
    && option_text_eq a.mandate_id b.mandate_id
    && tier_eq a.risk.tier b.risk.tier
    && option_ℕ_eq a.remaining b.remaining

-- `replayDecision`
unfoldable pub replay_decision :
    (String → String) → DecisionRecord → EffectivePolicy → List DenyRule → Bool × GateDecision
replay_decision upper r policy rules =
    let recomputed = evaluate_gate r.intent (replay_context upper r policy rules) in
    (verdicts_equal recomputed r.verdict, recomputed)
