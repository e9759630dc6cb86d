-- ===== src/Executor.antt =====
-- src/core/executor.ts: the only path from an intent to a rail. The operations are functions from the
-- state (store and audit log) to the new state and a result; what a rail does is given by its
-- provider. `execute` is cut at its `await`: up to the rail's answer, and from it.
pub mod Operations
pub mod Frame
pub mod Closed
pub mod Refunds
pub mod Approval
pub mod Settlement
pub mod Review
pub mod Settled
pub mod Budget
use agentworth.Prelude.{
  ℕ, suc, ◌+◌, ◌-◌, String, Bool, true, false, ◌&&◌, ◌||◌, not, Option, none, some, List, [], ◌∷◌,
  ◌++◌, map, ltb, leb, ◌==◌, str_eq, if◌then◌else◌, length, get_or,
}
use agentworth.Prelude.Int.{pos}
use agentworth.Prelude.Map.{get}
use agentworth.Types.{
  Mandate, Period, day, PaymentIntent, Reversibility, rail_reversibility, is_irreversible,
  Attestation, ReputationLevel, TrustLevel, GateOutcome, auto_execute, confirm_operator, block,
  Reason, risk_chain, kill_switch_engaged, breaker_open, settlement_error, SafeFix,
  ask_operator_chain, GateDecision, GateConfig, DenyRule, GateContext, Receipt, AlertType,
  minor_units, RiskReason, SpendRisk, Amount,
}
use agentworth.Risk.{payee_trust}
use agentworth.Gate.{evaluate_gate, unscored, is_high}
use agentworth.Fx.{Rate, convert_minor_cross_decimal, TokenDecimals}
use agentworth.Audit.{
  AuditEventType, gate_decision, payment_settled, payment_verified, payment_failed, payment_halted,
  Payload, decided, settled, verified, failed, halted, HaltPhase, agent_phase, DecisionPayload,
  AuditEntry, AuditKeys, ReplayInputs, UsedRate, next_entry, append,
}
use agentworth.RiskChain.{evaluate_risk_chain, default_options}
use agentworth.Rails.{Provider, Registry, Attempt, done, threw, get_provider}
use agentworth.Store.{
  Store, StoredIntent, IntentStatus, StoreError, Stored, ok, throws, Meta, text, counter, set_meta,
  get_meta, get_mandate, list_active_mandates, list_mandates, insert_intent, insert_receipt,
  period_spend, known_payees, is_known_payee, payee_settled_count, append_audit,
}
use agentworth.Store
use agentworth.Enforcement.{NormalPolicy, effective_policy, compute_policy_hash}

-- FX rates of the operator; `upper` is the runtime's `toUpperCase`.
pub record FxSource : Type 0 where
  pub rate : String → String → Option Rate
  pub upper : String → String
  pub token_decimals : TokenDecimals

pub record Deps : Type 0 where
  pub rails : Registry
  pub keys : AuditKeys
  pub config : GateConfig
  pub deny_rules : List DenyRule
  pub breaker_threshold : ℕ
  pub challenge_threshold : ℕ
  pub fx : Option FxSource
  pub reputation : Option (String → Option ReputationLevel)
  pub hash_policy : NormalPolicy → String
  pub hash_inputs : ReplayInputs → String

pub record State : Type 0 where
  pub store : Store
  pub log : List AuditEntry

-- A question that an approval is withheld for.
pub data Challenge : Type 0 where
  recognise_payee : String → Amount → String → Challenge
  accept_irreversible : Challenge
  accept_risk : List RiskReason → Challenge
  no_safer_alternative : Challenge

pub record ExecuteResult : Type 0 where
  pub intent_id : String
  pub status : IntentStatus
  pub decision : GateDecision
  pub receipt : Option Receipt
  pub verified : Option Bool
  pub challenge : Option (List Challenge)

-- What a call returns, or the exception that it throws; the writes before the throw stay.
pub data Error : Type 0 where
  store_error : StoreError → Error
  not_found : String → Error
  not_pending : String → IntentStatus → Error
  refund_threw : String → Error

pub data Outcome {ℓ} (A : Type ℓ) : Type ℓ where
  returned : A → Outcome A
  raised : Error → Outcome A

abbrev pub kill_key : String
kill_key = "kill_switch"

abbrev pub fail_key : String
fail_key = "consecutive_failures"

-- `deps.audit.append` and its mirror in the store.
unfoldable pub record_event : Deps → AuditEventType → Payload → ℕ → State → State
record_event d type payload ts s =
    let e = next_entry d.keys s.log type payload ts in
    record { store = append_audit e s.store; log = append d.keys s.log type payload ts }

unfoldable pub current_policy_hash : Deps → State → String
current_policy_hash d s =
    compute_policy_hash d.hash_policy
      (effective_policy (list_mandates s.store) d.config d.deny_rules)

abbrev is_text : String → Option Meta → Bool
is_text t (some (text u)) = str_eq u t
is_text t _ = false

-- `Number(getMeta(FAIL_KEY) ?? "0")`
abbrev count_of : Option Meta → ℕ
count_of (some (counter n)) = n
count_of _ = 0

unfoldable pub is_killed : State → Bool
is_killed s = is_text "1" (get_meta kill_key s.store)

unfoldable pub failures : State → ℕ
failures s = count_of (get_meta fail_key s.store)

abbrev pub breaker_is_open : Deps → State → Bool
breaker_is_open d s = leb d.breaker_threshold (failures s)

pub data Kind : Type 0 where
  good bad : Kind

unfoldable pub record_outcome : Kind → State → State
record_outcome good s = record s { store = set_meta fail_key (counter 0) s.store }
record_outcome bad s = record s { store = set_meta fail_key (counter (failures s + 1)) s.store }

unfoldable pub halt_reason : Deps → State → Option Reason
halt_reason d s =
    if is_killed s
    then some kill_switch_engaged
    else if breaker_is_open d s
    then some (breaker_open (failures s))
    else none

abbrev pub halt_decision : Reason → GateDecision
halt_decision r = record {
  outcome = block;
  reasons = r ∷ [];
  mandate_id = none;
  risk = unscored;
  remaining = none;
  suggested_fix = none;
}

abbrev fx_converter : Option FxSource → Option (ℕ → String → String → Option ℕ)
fx_converter none = none
fx_converter (some fx) = some (λ amount source target. elim (fx.rate source target) [
  | none ↦ none
  | some r ↦ some (convert_minor_cross_decimal fx.upper amount r source target fx.token_decimals)
])

abbrev provider_reversibility : Option Provider → Option Reversibility
provider_reversibility none = none
provider_reversibility (some p) = some p.capabilities.reversibility

abbrev pub reputation_for : Deps → PaymentIntent → Option ReputationLevel
reputation_for d intent = elim d.reputation [ none ↦ none | some f ↦ f intent.payee ]

abbrev pub constantly : Option ReputationLevel → Option (String → Option ReputationLevel)
constantly none = none
constantly (some level) = some (λ payee. some level)

-- `context`: what the gate is told of the store.
unfoldable pub context : Deps → ℕ → PaymentIntent → Option Attestation → State → GateContext
context d now intent attestation s = record {
  now = now;
  mandates = list_active_mandates now s.store;
  period_spend = λ id. period_spend id now s.store;
  known_payee = is_known_payee s.store;
  trust_of = some (λ payee. payee_trust (payee_settled_count s.store payee));
  convert = fx_converter d.fx;
  attestation = attestation;
  reputation_of = constantly (reputation_for d intent);
  deny_rules = d.deny_rules;
  config = d.config;
  reversibility = provider_reversibility (get_provider d.rails intent.rail);
}

abbrev is_day : Period → Bool
is_day day = true
is_day _ = false

abbrev streams : Option Mandate → Bool
streams none = false
streams (some m) = is_day m.period

-- A mandate of the period `day` is a streaming mandate.
unfoldable pub is_streaming : Option String → State → Bool
is_streaming none s = false
is_streaming (some id) s = streams (get_mandate id s.store)

-- An alert sends an autonomous payment to the operator, and is added to the reasons of any other.
unfoldable pub escalate : Option AlertType → GateDecision → GateDecision
escalate none d = d
escalate (some a) d = elim d.outcome [
  | auto_execute ↦ record d {
    outcome = confirm_operator;
    reasons = d.reasons ++ risk_chain a ∷ [];
    suggested_fix = some (ask_operator_chain a);
  }
  | _ ↦ record d { reasons = d.reasons ++ risk_chain a ∷ [] }
]

unfoldable pub gate_verdict : Deps → ℕ → PaymentIntent → Option Attestation → State → GateDecision
gate_verdict d now intent attestation s = evaluate_gate intent (context d now intent attestation s)

-- The decision of `execute`: the gate's, with the session's risk chain.
unfoldable pub decide : Deps → ℕ → PaymentIntent → Option Attestation → State → GateDecision
decide d now intent attestation s =
    let verdict = gate_verdict d now intent attestation s in
    escalate
      (evaluate_risk_chain intent s.log now (default_options (is_streaming verdict.mandate_id s)))
      verdict
