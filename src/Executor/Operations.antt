-- ===== src/Executor/Operations.antt =====
-- src/core/executor.ts: `settle` and `execute`.
use agentworth.Prelude.{
  ℕ, String, Bool, Option, none, some, List, [], ◌∷◌, map, str_eq, if◌then◌else◌,
}
use agentworth.Types.{
  Mandate, RailKind, onchain, card, checkout, PaymentIntent, Reversibility, rail_reversibility,
  Attestation, GateOutcome, auto_execute, confirm_operator, block, Reason, settlement_error,
  GateDecision, Receipt,
}
use agentworth.Risk.{payee_trust}
use agentworth.Audit.{
  gate_decision, payment_settled, payment_verified, payment_failed, payment_halted, decided,
  settled, verified, failed, halted, agent_phase, ReplayInputs, UsedRate,
}
use agentworth.Rails.{Provider, Attempt, done, threw, get_provider}
use agentworth.Store.{
  StoredIntent, IntentStatus, Stored, ok, throws, insert_intent, insert_receipt,
  list_active_mandates, period_spend, known_payees, payee_settled_count,
}
use agentworth.Enforcement.{sort_texts}
use agentworth.Executor.{
  FxSource, Deps, State, ExecuteResult, store_error, Outcome, returned, raised, record_event,
  current_policy_hash, good, bad, record_outcome, halt_reason, halt_decision, reputation_for,
  decide,
}

abbrev no_provider : RailKind → String
no_provider onchain = "no provider registered for rail onchain"
no_provider card = "no provider registered for rail card"
no_provider checkout = "no provider registered for rail checkout"

-- What follows the provider's answer.
unfoldable pub settled_by :
    Deps → PaymentIntent → ℕ → Provider → Attempt Receipt → State → State × Attempt (Receipt × Bool)
settled_by d intent now p (threw e) s =
    (record_event d payment_failed (failed intent.id e) now s, threw e)
settled_by d intent now p (done issued) s =
    let r : Receipt = record issued { provider_id = some p.capabilities.id } in
    let issued_ok = p.verify_receipt r in
    let kept = record s { store = insert_receipt r s.store } in
    let paid =
      record_event d payment_settled
        (settled intent.id r.id intent.amount intent.currency intent.rail) r.settled_at kept in
    (
      record_event d payment_verified (verified intent.id r.id issued_ok) r.settled_at paid,
      done (r, issued_ok),
    )

abbrev pub settle_with :
    Deps → PaymentIntent → ℕ → Option Provider → State → State × Attempt (Receipt × Bool)
settle_with d intent now none s = (s, threw (no_provider intent.rail))
settle_with d intent now (some p) s = settled_by d intent now p (p.settle intent now) s

unfoldable pub settle : Deps → PaymentIntent → ℕ → State → State × Attempt (Receipt × Bool)
settle d intent now s = settle_with d intent now (get_provider d.rails intent.rail) s

-- A write of the store: its exception leaves the operation.
abbrev pub store_then :
    {A : Type 0} → Stored → State → (State → State × Outcome A) → State × Outcome A
store_then (throws e) s k = (s, raised (store_error e))
store_then (ok st) s k = k (record s { store = st })

abbrev pub unsettled : String → IntentStatus → GateDecision → ExecuteResult
unsettled id status decision = record {
  intent_id = id;
  status = status;
  decision = decision;
  receipt = none;
  verified = none;
  challenge = none;
}

abbrev pub stored : PaymentIntent → IntentStatus → Option String → List Reason → StoredIntent
stored intent status mandate_id reasons = record {
  intent = intent;
  status = status;
  mandate_id = mandate_id;
  reasons = reasons;
  settled_at = none;
  receipt_id = none;
  refunded_minor = none;
}

unfoldable pub execute_halted :
    Deps → ℕ → PaymentIntent → Reason → State → State × Outcome ExecuteResult
execute_halted d now intent r s =
    let s' = record_event d payment_halted (halted intent.id agent_phase r) now s in
    let decision = halt_decision r in
    store_then (insert_intent (stored intent IntentStatus.blocked none decision.reasons) s'.store)
      s' (λ t. (t, returned (unsettled intent.id IntentStatus.blocked decision)))

abbrev used_rates : Option FxSource → String → List Mandate → List UsedRate
used_rates none currency ms = []
used_rates (some fx) currency [] = []
used_rates (some fx) currency (m ∷ ms) =
    let rest = used_rates (some fx) currency ms in
    if str_eq m.currency currency then rest else elim (fx.rate currency m.currency) [
      | none ↦ rest
      | some r ↦ record { source = currency; target = m.currency; rate = r } ∷ rest
    ]

abbrev pub reversibility_for : Deps → PaymentIntent → Reversibility
reversibility_for d intent = elim (get_provider d.rails intent.rail) [
  | none ↦ rail_reversibility intent.rail
  | some p ↦ p.capabilities.reversibility
]

-- The snapshot of the inputs that a replay holds fixed.
unfoldable pub replay_inputs : Deps → ℕ → PaymentIntent → Option Attestation → State → ReplayInputs
replay_inputs d now intent attestation s = record {
  reversibility = reversibility_for d intent;
  trust = payee_trust (payee_settled_count s.store intent.payee);
  known_payees = sort_texts (known_payees s.store);
  period_spend =
      map (λ m. (m.id, period_spend m.id now s.store)) (list_active_mandates now s.store);
  attestation = attestation;
  reputation = reputation_for d intent;
  fx_rates = used_rates d.fx intent.currency (list_active_mandates now s.store);
}

unfoldable pub record_decision :
    Deps → ℕ → PaymentIntent → Option Attestation → GateDecision → State → State
record_decision d now intent attestation decision s =
    let inputs = replay_inputs d now intent attestation s in
    record_event d gate_decision
      (decided (record {
        intent_id = intent.id;
        verdict = decision;
        ctx_digest = d.hash_inputs inputs;
        intent = intent;
        inputs = inputs;
        policy_hash = current_policy_hash d s;
      }))
      now s

-- The part of `execute` from the rail's answer on.
unfoldable pub finish :
    PaymentIntent → GateDecision → State × Attempt (Receipt × Bool) → State × Outcome ExecuteResult
finish intent decision (s, threw e) =
    store_then
      (insert_intent
        (stored intent IntentStatus.failed decision.mandate_id (settlement_error e ∷ [])) s.store)
      s (λ t. (record_outcome bad t, returned (unsettled intent.id IntentStatus.failed decision)))
finish intent decision (s, done (r, issued_ok)) =
    store_then
      (insert_intent
        (record (stored intent IntentStatus.settled decision.mandate_id decision.reasons) {
          settled_at = some r.settled_at;
          receipt_id = some r.id;
        })
        s.store)
      s
      (λ t. (
        record_outcome good t,
        returned (record (unsettled intent.id IntentStatus.settled decision) {
          receipt = some r;
          verified = some issued_ok;
        }),
      ))

-- What `execute` does with its decision.
unfoldable pub carry_out :
    Deps → ℕ → PaymentIntent → GateDecision → GateOutcome → State → State × Outcome ExecuteResult
carry_out d now intent decision block s =
    store_then
      (insert_intent (stored intent IntentStatus.blocked decision.mandate_id decision.reasons)
        s.store)
      s (λ t. (record_outcome bad t, returned (unsettled intent.id IntentStatus.blocked decision)))
carry_out d now intent decision confirm_operator s =
    store_then
      (insert_intent (stored intent IntentStatus.pending decision.mandate_id decision.reasons)
        s.store)
      s (λ t. (t, returned (unsettled intent.id IntentStatus.pending decision)))
carry_out d now intent decision auto_execute s = finish intent decision (settle d intent now s)

abbrev pub execute_unless :
    Deps
    → ℕ
    → PaymentIntent
    → Option Attestation
    → Option Reason
    → State
    → State × Outcome ExecuteResult
execute_unless d now intent attestation (some r) s = execute_halted d now intent r s
execute_unless d now intent attestation none s =
    let decision = decide d now intent attestation s in
    carry_out d now intent decision decision.outcome
      (record_decision d now intent attestation decision s)

unfoldable pub execute :
    Deps → ℕ → PaymentIntent → Option Attestation → State → State × Outcome ExecuteResult
execute d now intent attestation s = execute_unless d now intent attestation (halt_reason d s) s
