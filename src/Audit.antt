-- ===== src/Audit.antt =====
-- src/core/audit.ts: the hash-linked, signed log. SHA-256 over the canonical text of an entry and HMAC
-- are arguments; a payload is kept as data where the source hashes its canonical JSON text.
pub mod Chain
mod Tests
use agentworth.Prelude.{
  ℕ, ◌+◌, String, Bool, true, false, Option, none, some, List, [], ◌∷◌, ◌++◌, str_eq, if◌then◌else◌,
  length,
}
use agentworth.Types.{
  Mandate, PaymentIntent, Reversibility, Attestation, ReputationLevel, TrustLevel, PriorSpend,
  GateDecision, RailKind, Reason, PayeeScope, Period, MandateStatus, Amount,
}
use agentworth.Fx.{Rate}

pub data AuditEventType : Type 0 where
  mandate_granted mandate_revoked mandate_amended : AuditEventType
  gate_decision : AuditEventType
  payment_settled payment_verified payment_failed payment_refunded payment_halted : AuditEventType
  earning_quoted earning_received earning_rejected : AuditEventType

-- A rate that a decision used, under its `FROM/TO` key.
pub record UsedRate : Type 0 where
  pub source : String
  pub target : String
  pub rate : Rate

-- enforcement.ts: the inputs that a decision consumed beside the policy.
pub record ReplayInputs : Type 0 where
  pub reversibility : Reversibility
  pub trust : TrustLevel
  pub known_payees : List String
  pub period_spend : List (String × List PriorSpend)
  pub attestation : Option Attestation
  pub reputation : Option ReputationLevel
  pub fx_rates : List UsedRate

-- The payload of a `gate.decision` of the agent phase. The source spells outcome, reasons, mandate
-- and risk tier out beside the verdict that holds them.
pub record DecisionPayload : Type 0 where
  pub intent_id : String
  pub verdict : GateDecision
  pub ctx_digest : String
  pub intent : PaymentIntent
  pub inputs : ReplayInputs
  pub policy_hash : String

-- The payload of a `gate.decision` of the operator's approval.
pub record ApprovalPayload : Type 0 where
  pub intent_id : String
  pub verdict : GateDecision
  pub operator_rationale : String
  pub acknowledged : Bool
  pub policy_hash : String

-- `Partial<Mandate>`: the fields that an amendment changes.
pub record MandatePatch : Type 0 where
  pub label : Option String
  pub scope : Option PayeeScope
  pub currency : Option String
  pub allowed_rails : Option (List RailKind)
  pub per_tx_cap : Option ℕ
  pub per_period_cap : Option ℕ
  pub period : Option Period
  pub granted_at : Option ℕ
  pub expires_at : Option ℕ
  pub status : Option MandateStatus

-- earningDesk.ts: a payment to the agent, and why it is not accepted. The proof is its text. The amount
-- is a whole number, or NaN, with which every comparison is false.
pub data InboundAmount : Type 0 where
  whole_amount : ℕ → InboundAmount
  not_a_number : InboundAmount

pub record InboundPayment : Type 0 where
  pub service : String
  pub amount_minor : InboundAmount
  pub currency : String
  pub payer : Option String
  pub proof : Option String

pub data EarningReason : Type 0 where
  currency_not_accepted : String → String → EarningReason
  below_minimum : ℕ → ℕ → EarningReason
  not_offered : String → EarningReason
  no_verifier proof_not_verified verified_and_recorded : EarningReason

pub data HaltPhase : Type 0 where
  agent_phase operator_approval : HaltPhase

pub data Payload : Type 0 where
  granted : String → String → Payload
  revoked : String → Payload
  amended : String → MandatePatch → Payload
  extended : String → ℕ → Payload
  decided : DecisionPayload → Payload
  reviewed : ApprovalPayload → Payload
  settled : String → String → Amount → String → RailKind → Payload
  verified : String → String → Bool → Payload
  failed : String → String → Payload
  refunded : String → ℕ → String → Option String → Payload
  halted : String → HaltPhase → Reason → Payload
  quoted : String → ℕ → String → Option String → Payload
  received : String → InboundAmount → String → Option String → Payload
  rejected : InboundPayment → List EarningReason → Payload

pub record AuditEntry : Type 0 where
  pub seq : ℕ
  pub ts : ℕ
  pub type : AuditEventType
  pub payload : Payload
  pub prev_hash : String
  pub hash : String
  pub sig : String
  pub key_version : Option String

-- `hashEntry`, `signHash` and the signing key: the current one with its version, and the key of a
-- version, if it is known.
pub record AuditKeys : Type 0 where
  pub hash_entry : ℕ → ℕ → AuditEventType → Payload → String → String
  pub sign_hash : String → String → String
  pub current_key : String
  pub current_version : Option String
  pub resolve_key : Option String → Option String

-- GENESIS
abbrev pub genesis : String
genesis = "0000000000000000000000000000000000000000000000000000000000000000"

unfoldable pub last_hash : String → List AuditEntry → String
last_hash h [] = h
last_hash h (e ∷ es) = last_hash e.hash es

unfoldable pub next_entry : AuditKeys → List AuditEntry → AuditEventType → Payload → ℕ → AuditEntry
unfolding last_hash
next_entry k log type payload ts =
    let prev = last_hash genesis log in
    let h = k.hash_entry (length log) ts type payload prev in
    record {
      seq = length log;
      ts = ts;
      type = type;
      payload = payload;
      prev_hash = prev;
      hash = h;
      sig = k.sign_hash h k.current_key;
      key_version = k.current_version;
    }

unfoldable pub append : AuditKeys → List AuditEntry → AuditEventType → Payload → ℕ → List AuditEntry
unfolding next_entry
append k log type payload ts = log ++ next_entry k log type payload ts ∷ []

pub data Verdict : Type 0 where
  valid : Verdict
  broken_link content_mismatch unknown_key bad_signature : ℕ → Verdict

check_signature : AuditKeys → AuditEntry → Option String → Verdict
check_signature k e none = unknown_key e.seq
check_signature k e (some key) =
    if str_eq (k.sign_hash e.hash key) e.sig then valid else bad_signature e.seq

check_entry : AuditKeys → String → AuditEntry → Verdict
unfolding check_signature
check_entry k prev e =
    if str_eq e.prev_hash prev
    then (if str_eq (k.hash_entry e.seq e.ts e.type e.payload e.prev_hash) e.hash
        then check_signature k e (k.resolve_key e.key_version)
        else content_mismatch e.seq)
    else broken_link e.seq

abbrev then_verify : Verdict → Verdict → Verdict
then_verify valid rest = rest
then_verify v rest = v

unfoldable pub verify_from : AuditKeys → String → List AuditEntry → Verdict
unfolding check_entry
verify_from k prev [] = valid
verify_from k prev (e ∷ es) = then_verify (check_entry k prev e) (verify_from k e.hash es)

unfoldable pub verify : AuditKeys → List AuditEntry → Verdict
unfolding verify_from
verify k log = verify_from k genesis log
