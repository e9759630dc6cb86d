-- ===== src/Executor/Approval.antt =====
-- src/core/executor.ts: `approve`, `refund`, amendments and the operator's controls.
use agentworth.Prelude.{
  ℕ, ◌+◌, ◌-◌, String, Bool, ◌&&◌, ◌||◌, not, Option, none, some, List, [], ◌∷◌, ◌++◌, ltb, leb,
  ◌==◌, if◌then◌else◌, get_or,
}
use agentworth.Types.{
  PaymentIntent, is_irreversible, GateOutcome, block, Reason, settlement_error, GateDecision,
  Receipt, minor_units,
}
use agentworth.Gate.{is_high}
use agentworth.Audit.{
  gate_decision, mandate_amended, payment_refunded, payment_halted, amended, extended, reviewed,
  refunded, halted, operator_approval, MandatePatch,
}
use agentworth.Rails.{Provider, Attempt, done, threw, by_id, get_provider}
use agentworth.Store.{
  StoredIntent, IntentStatus, is_settled, is_pending, no_update, text, counter, set_meta,
  get_intent, get_receipt, update_intent, update_mandate,
}
use agentworth.Executor.{
  Deps, State, Challenge, recognise_payee, accept_irreversible, accept_risk, no_safer_alternative,
  ExecuteResult, not_found, not_pending, refund_threw, Outcome, returned, raised, kill_key,
  fail_key, record_event, current_policy_hash, good, bad, record_outcome, halt_reason,
  halt_decision, gate_verdict,
}
use agentworth.Executor.Operations.{settle, store_then, unsettled, reversibility_for}

-- `challengeFor`
unfoldable pub challenge_for : Deps → PaymentIntent → GateDecision → List Challenge
challenge_for d intent decision =
    (recognise_payee intent.payee intent.amount intent.currency ∷ [])
    ++ ((if is_irreversible (reversibility_for d intent) then accept_irreversible ∷ [] else [])
        ++ ((if is_high decision.risk.tier then accept_risk decision.risk.reasons ∷ [] else [])
            ++ no_safer_alternative ∷ []))

unfoldable pub requires_challenge : Deps → PaymentIntent → GateDecision → Bool
requires_challenge d intent decision =
    is_high decision.risk.tier
    || is_irreversible (reversibility_for d intent)
    || leb d.challenge_threshold (minor_units intent.amount)

unfoldable pub finish_approval :
    String → GateDecision → State × Attempt (Receipt × Bool) → State × Outcome ExecuteResult
finish_approval id decision (s, threw e) =
    store_then
      (update_intent id
        (record no_update {
          status = some IntentStatus.failed;
          reasons = some (settlement_error e ∷ []);
        })
        s.store)
      s (λ t. (record_outcome bad t, returned (unsettled id IntentStatus.failed decision)))
finish_approval id decision (s, done (r, issued_ok)) =
    store_then
      (update_intent id
        (record no_update {
          status = some IntentStatus.settled;
          settled_at = some r.settled_at;
          receipt_id = some r.id;
        })
        s.store)
      s
      (λ t. (
        record_outcome good t,
        returned (record (unsettled id IntentStatus.settled decision) {
          receipt = some r;
          verified = some issued_ok;
        }),
      ))

-- Past the hard block: the challenge, then the rail.
unfoldable pub approve_within :
    Deps → ℕ → String → PaymentIntent → GateDecision → Bool → State → State × Outcome ExecuteResult
approve_within d now id intent decision acknowledged s =
    if requires_challenge d intent decision && not acknowledged
    then (
      s,
      returned (record (unsettled id IntentStatus.pending decision) {
        challenge = some (challenge_for d intent decision);
      }),
    )
    else finish_approval id decision (settle d intent now s)

unfoldable pub approve_decided :
    Deps
    → ℕ
    → String
    → PaymentIntent
    → GateDecision
    → GateOutcome
    → Bool
    → State
    → State × Outcome ExecuteResult
approve_decided d now id intent decision block acknowledged s =
    store_then
      (update_intent id
        (record no_update { status = some IntentStatus.blocked; reasons = some decision.reasons })
        s.store)
      s (λ t. (record_outcome bad t, returned (unsettled id IntentStatus.blocked decision)))
approve_decided d now id intent decision _ acknowledged s =
    approve_within d now id intent decision acknowledged s

unfoldable pub approve_unless :
    Deps
    → ℕ
    → String
    → PaymentIntent
    → String
    → Bool
    → Option Reason
    → State
    → State × Outcome ExecuteResult
approve_unless d now id intent rationale acknowledged (some r) s = (
  record_event d payment_halted (halted id operator_approval r) now s,
  returned (unsettled id IntentStatus.blocked (halt_decision r)),
)
approve_unless d now id intent rationale acknowledged none s =
    let decision = gate_verdict d now intent none s in
    approve_decided d now id intent decision decision.outcome acknowledged (
      record_event d gate_decision
        (reviewed (record {
          intent_id = id;
          verdict = decision;
          operator_rationale = rationale;
          acknowledged = acknowledged;
          policy_hash = current_policy_hash d s;
        }))
        now s)

unfoldable pub approve_stored :
    Deps → ℕ → String → String → Bool → Option StoredIntent → State → State × Outcome ExecuteResult
approve_stored d now id rationale acknowledged none s = (s, raised (not_found id))
approve_stored d now id rationale acknowledged (some si) s =
    if is_pending si.status
    then approve_unless d now id si.intent rationale acknowledged (halt_reason d s) s
    else (s, raised (not_pending id si.status))

unfoldable pub approve : Deps → ℕ → String → String → Bool → State → State × Outcome ExecuteResult
approve d now id rationale acknowledged s =
    approve_stored d now id rationale acknowledged (get_intent id s.store) s

pub data RefundRefusal : Type 0 where
  not_settled : IntentStatus → RefundRefusal
  no_receipt no_provider irreversible_settlement no_refunds invalid_amount : RefundRefusal

pub record RefundResult : Type 0 where
  pub intent_id : String
  pub refunded_minor : ℕ
  pub refusal : Option RefundRefusal

abbrev pub refused : String → ℕ → RefundRefusal → RefundResult
refused id already why = record { intent_id = id; refunded_minor = already; refusal = some why }

-- The provider's answer to a refund that passed every check.
unfoldable pub refund_answered :
    Deps
    → ℕ
    → String
    → StoredIntent
    → ℕ
    → ℕ
    → Option String
    → Attempt String
    → State
    → State × Outcome RefundResult
refund_answered d now id si already amount reason (threw e) s = (s, raised (refund_threw e))
refund_answered d now id si already amount reason (done ref) s =
    store_then
      (update_intent id (record no_update { refunded_minor = some (already + amount) }) s.store) s
      (λ t. (
        record_event d payment_refunded (refunded id amount ref reason) now t,
        returned (record { intent_id = id; refunded_minor = already + amount; refusal = none }),
      ))

-- An amount that is asked for is whole. The code compares any number: with NaN both comparisons are false, and
-- NaN is stored as what was refunded; a fraction is refunded as it is.
unfoldable pub refund_from :
    Deps
    → ℕ
    → String
    → StoredIntent
    → Receipt
    → Provider
    → Option ℕ
    → Option String
    → State
    → State × Outcome RefundResult
refund_from d now id si r p amount_minor reason s =
    let already = get_or si.refunded_minor 0 in
    let full = minor_units si.intent.amount in
    let amount = get_or amount_minor (minor_units si.intent.amount - get_or si.refunded_minor 0) in
    if is_irreversible p.capabilities.reversibility
    then (s, returned (refused id already irreversible_settlement))
    else elim p.refund [
      | none ↦ (s, returned (refused id already no_refunds))
      | some give_back ↦
          if amount == 0 || ltb full (already + amount)
          then (s, returned (refused id already invalid_amount))
          else refund_answered d now id si already amount reason (give_back r amount now) s
    ]

abbrev pub or_else {ℓ} : {A : Type ℓ} → Option A → Option A → Option A
or_else none b = b
or_else (some a) b = some a

abbrev pub issuer : Deps → Receipt → Option Provider
issuer d r = elim r.provider_id [ none ↦ none | some id ↦ by_id d.rails id ]

abbrev pub receipt_of : Option String → State → Option Receipt
receipt_of none s = none
receipt_of (some id) s = get_receipt id s.store

abbrev pub refund_with :
    Deps
    → ℕ
    → String
    → StoredIntent
    → Option Receipt
    → Option ℕ
    → Option String
    → State
    → State × Outcome RefundResult
refund_with d now id si none amount reason s =
    (s, returned (refused id (get_or si.refunded_minor 0) no_receipt))
refund_with d now id si (some r) amount reason s =
    elim (or_else (issuer d r) (get_provider d.rails si.intent.rail)) [
      | none ↦ (s, returned (refused id (get_or si.refunded_minor 0) no_provider))
      | some p ↦ refund_from d now id si r p amount reason s
    ]

unfoldable pub refund_stored :
    Deps
    → ℕ
    → String
    → Option ℕ
    → Option String
    → Option StoredIntent
    → State
    → State × Outcome RefundResult
refund_stored d now id amount reason none s = (s, raised (not_found id))
refund_stored d now id amount reason (some si) s =
    if is_settled si.status
    then refund_with d now id si (receipt_of si.receipt_id s) amount reason s
    else (s, returned (refused id (get_or si.refunded_minor 0) (not_settled si.status)))

unfoldable pub refund :
    Deps → ℕ → String → Option ℕ → Option String → State → State × Outcome RefundResult
refund d now id amount reason s = refund_stored d now id amount reason (get_intent id s.store) s

unfoldable pub amend_mandate : Deps → ℕ → String → MandatePatch → State → State
amend_mandate d now id patch s =
    record_event d mandate_amended (amended id patch) now
      (record s { store = update_mandate id patch s.store })

abbrev pub expiry_patch : ℕ → MandatePatch
expiry_patch expires_at = record {
  label = none;
  scope = none;
  currency = none;
  allowed_rails = none;
  per_tx_cap = none;
  per_period_cap = none;
  period = none;
  granted_at = none;
  expires_at = some expires_at;
  status = none;
}

unfoldable pub extend_mandate : Deps → ℕ → String → ℕ → State → State
extend_mandate d now id expires_at s =
    record_event d mandate_amended (extended id expires_at) now
      (record s { store = update_mandate id (expiry_patch expires_at) s.store })

unfoldable pub engage_kill_switch : State → State
engage_kill_switch s = record s { store = set_meta kill_key (text "1") s.store }

unfoldable pub disengage_kill_switch : State → State
disengage_kill_switch s = record s { store = set_meta kill_key (text "0") s.store }

unfoldable pub reset_circuit_breaker : State → State
reset_circuit_breaker s = record s { store = set_meta fail_key (counter 0) s.store }
