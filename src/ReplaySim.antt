-- ===== src/ReplaySim.antt =====
-- src/obs/replaySim.ts: what another policy would have decided of the payments of a log. A recorded
-- decision of the agent's phase has its intent and its inputs.
pub mod Budget
mod Tests
use agentworth.Prelude.{
  ℕ, ◌-◌, String, Bool, true, false, not, Option, none, some, List, [], ◌∷◌, ◌++◌, str_eq,
  if◌then◌else◌, get_or, leb, length, filter, find,
}
use agentworth.Prelude.Map.{Map, get, set}
use agentworth.Types.{
  Mandate, Amount, minor, malformed, PaymentIntent, GateConfig, default_gate_config, DenyRule,
  GateContext, GateOutcome, auto_execute, confirm_operator, block, GateDecision, PriorSpend,
  TrustLevel, new,
}
use agentworth.Payee.{default_deny_rules}
use agentworth.Store.{period_start}
use agentworth.Gate.{evaluate_gate}
use agentworth.Enforcement.{outcome_eq}
use agentworth.Audit.{AuditEntry, AuditEventType, gate_decision, Payload, decided, DecisionPayload}

pub record ReplayCandidate : Type 0 where
  pub mandates : List Mandate
  pub config : Option GateConfig
  pub deny_rules : Option (List DenyRule)

pub record ReplayRecord : Type 0 where
  pub intent_id : String
  pub original : GateOutcome
  pub replayed : GateOutcome
  pub changed : Bool

pub record ReplayReport : Type 0 where
  pub total : ℕ
  pub unchanged : ℕ
  pub changed : ℕ
  pub records : List ReplayRecord

-- `settledByMandate`
abbrev pub Ledger : Type 0
Ledger = Map (List PriorSpend)

-- `periodSpendByMandate`
unfoldable pub counted_spend : ReplayCandidate → ℕ → String → List PriorSpend → List PriorSpend
counted_spend c at id spend = elim (find (λ m. str_eq m.id id) c.mandates) [
  | none ↦ []
  | some m ↦ filter (λ s. leb (period_start at m.period) s.at) spend
]

abbrev pub is_known : TrustLevel → String → String → Bool
is_known new payee p = false
is_known _ payee p = str_eq p payee

abbrev pub spend_in : Ledger → String → List PriorSpend
spend_in ledger id = get_or (get id ledger) []

abbrev pub candidate_context : ReplayCandidate → Ledger → DecisionPayload → GateContext
candidate_context c ledger p = record {
  now = p.intent.created_at;
  mandates = c.mandates;
  period_spend = λ id. counted_spend c p.intent.created_at id (spend_in ledger id);
  known_payee = is_known p.inputs.trust p.intent.payee;
  trust_of = some (λ payee. p.inputs.trust);
  convert = none;
  attestation = p.inputs.attestation;
  reputation_of = elim p.inputs.reputation [ none ↦ none | some r ↦ some (λ payee. some r) ];
  deny_rules = get_or c.deny_rules default_deny_rules;
  config = get_or c.config default_gate_config;
  reversibility = some p.inputs.reversibility;
}

-- What the candidate executes is settled; the amount of such a payment is whole.
unfoldable pub settle_replayed : Amount → ℕ → GateDecision → Ledger → Ledger
settle_replayed (minor n) at d ledger = elim d.outcome [
  | auto_execute ↦ elim d.mandate_id [
    | none ↦ ledger
    | some id ↦ set id (spend_in ledger id ++ record { amount = n; at = at } ∷ []) ledger
  ]
  | _ ↦ ledger
]
settle_replayed malformed at d ledger = ledger

unfoldable pub replay_step : ReplayCandidate → Ledger → DecisionPayload → Ledger
replay_step c ledger p =
    settle_replayed p.intent.amount p.intent.created_at
      (evaluate_gate p.intent (candidate_context c ledger p)) ledger

unfoldable pub replay_record : ReplayCandidate → Ledger → DecisionPayload → ReplayRecord
replay_record c ledger p =
    let replayed = (evaluate_gate p.intent (candidate_context c ledger p)).outcome in
    record {
      intent_id = p.intent.id;
      original = p.verdict.outcome;
      replayed = replayed;
      changed = not (outcome_eq p.verdict.outcome replayed);
    }

abbrev pub agent_decision : AuditEventType → Payload → Option DecisionPayload
agent_decision gate_decision (decided p) = some p
agent_decision _ _ = none

-- The decisions of the agent's phase, in the log's order.
unfoldable pub decisions_in : List AuditEntry → List DecisionPayload
decisions_in [] = []
decisions_in (e ∷ es) =
    let rest = decisions_in es in
    elim (agent_decision e.type e.payload) [ none ↦ rest | some p ↦ p ∷ rest ]

unfoldable pub replay_all :
    ReplayCandidate → Ledger → List DecisionPayload → List ReplayRecord × Ledger
replay_all c ledger [] = ([], ledger)
replay_all c ledger (p ∷ ps) =
    let rest = replay_all c (replay_step c ledger p) ps in
    (replay_record c ledger p ∷ rest.0, rest.1)

unfoldable pub replay_audit : List AuditEntry → ReplayCandidate → ReplayReport
replay_audit entries c =
    let records = (replay_all c [] (decisions_in entries)).0 in
    let changed = length (filter (λ r. r.changed) records) in
    record {
      total = length records;
      unchanged = length records - changed;
      changed = changed;
      records = records;
    }
