-- ===== src/Executor/Settlement.antt =====
-- No money moves but through the gate: src/core/executor.ts.
use agentworth.Prelude.{
  ℕ, ◌<◌, ◌≡◌, refl, ◌⊎◌, inl, inr, ◌∙◌, false, Option, none, some, arith, Option-cases,
}
use agentworth.Types.{
  Mandate, PaymentIntent, Attestation, GateOutcome, auto_execute, confirm_operator, block,
  GateDecision, Reason, AlertType,
}
use agentworth.Gate.Authority.{Authorized, auto_execute-Authorized}
use agentworth.RiskChain.{evaluate_risk_chain, default_options}
use agentworth.Store.{set_meta}
use agentworth.Executor.{
  Deps, State, ExecuteResult, Outcome, is_killed, failures, halt_reason, context, gate_verdict,
  decide, escalate, is_streaming, record_event, record_outcome,
}
use agentworth.Executor.Frame.{insert_then}
use agentworth.Executor.Operations.{execute_halted, record_decision, carry_out, execute}

-- Nothing halts the executor.
pub record Running (d : Deps) (s : State) : Type 0 where
  pub alive : is_killed s ≡ false
  pub closed : failures s < d.breaker_threshold

-- The gate lets the payment through, and no pattern of the session speaks against it.
pub record Cleared (d : Deps) (now : ℕ) (intent : PaymentIntent) (a : Option Attestation)
    (s : State) : Type 0 where
  pub running : Running d s
  pub amount : ℕ
  pub mandate : Mandate
  pub authorized : Authorized intent (context d now intent a s) amount mandate
  pub quiet :
      evaluate_risk_chain intent s.log now (default_options (is_streaming (some mandate.id) s))
      ≡ none
  pub named : (decide d now intent a s).mandate_id ≡ some mandate.id

pub halt_reason-none : (d : Deps) (s : State) → halt_reason d s ≡ none → Running d s
unfolding halt_reason
halt_reason-none d s h = record { alive = ground arith; closed = ground arith }

escalate-auto :
    (a : Option AlertType) (d : GateDecision)
    → (escalate a d).outcome ≡ auto_execute
    → (a ≡ none) × (d.outcome ≡ auto_execute)
unfolding escalate
escalate-auto none d h = (refl, h)
escalate-auto (some a) d h = ground arith

mandate_id-escalate :
    (a : Option AlertType) (d : GateDecision) → (escalate a d).mandate_id ≡ d.mandate_id
unfolding escalate
mandate_id-escalate none d = refl
mandate_id-escalate (some a) d = ground arith

module _ (d : Deps) (now : ℕ) (intent : PaymentIntent) (a : Option Attestation) (s : State) where
  pub decide-auto :
      halt_reason d s ≡ none
      → (decide d now intent a s).outcome ≡ auto_execute
      → Cleared d now intent a s
  unfolding decide gate_verdict
  decide-auto running h =
      let (quiet, auto) =
        escalate-auto
          (evaluate_risk_chain intent s.log now
            (default_options (is_streaming (gate_verdict d now intent a s).mandate_id s)))
          (gate_verdict d now intent a s) h in
      let (n, m, authorized, named) =
        auto_execute-Authorized intent (context d now intent a s) auto in
      record {
        running = halt_reason-none d s running;
        amount = n;
        mandate = m;
        authorized = authorized;
        quiet = rw named.names at quiet;
        named = mandate_id-escalate _ (gate_verdict d now intent a s) ∙ named.names;
      }

  abbrev Same : State × Outcome ExecuteResult → Type 0
  Same r = r.0.store.receipts ≡ s.store.receipts

  receipts-execute_halted : (r : Reason) → Same (execute_halted d now intent r s)
  unfolding execute_halted record_event
  receipts-execute_halted r = insert_then Same _ _ _ (λ old e. refl) (λ e. refl)

  receipts-carry_out :
      (v : GateDecision) (o : GateOutcome)
      → (Same (carry_out d now intent v o (record_decision d now intent a v s)))
        ⊎ (o ≡ auto_execute)
  unfolding carry_out record_decision record_event record_outcome set_meta
  receipts-carry_out v block = inl (insert_then Same _ _ _ (λ old e. refl) (λ e. refl))
  receipts-carry_out v confirm_operator = inl (insert_then Same _ _ _ (λ old e. refl) (λ e. refl))
  receipts-carry_out v auto_execute = inr refl

  -- `execute` stores no receipt, whether it returns or throws, unless the executor is not halted,
  -- the gate authorizes the payment by a live mandate within its caps, and no pattern of the
  -- session's log speaks against it.
  pub execute-Cleared :
      ((execute d now intent a s).0.store.receipts ≡ s.store.receipts) ⊎ Cleared d now intent a s
  unfolding execute
  execute-Cleared = elim (Option-cases (halt_reason d s)) [
    | inr (r, e) ↦ inl (rw (e, execute) (receipts-execute_halted r))
    | inl e ↦
        elim (receipts-carry_out (decide d now intent a s) (decide d now intent a s).outcome) [
          | inl same ↦ inl (rw (e, execute) same)
          | inr auto ↦ inr (decide-auto e auto)
        ]
  ]
