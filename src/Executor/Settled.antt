-- ===== src/Executor/Settled.antt =====
-- An intent that src/core/executor.ts reports as settled was let through.
use agentworth.Prelude.{ℕ, ◌≡◌, refl, ◌⊎◌, inl, inr, Bool, false, Option, Option-cases}
use agentworth.Types.{
  PaymentIntent, Attestation, GateOutcome, auto_execute, confirm_operator, block, GateDecision,
  Reason,
}
use agentworth.Store.{set_meta, is_settled}
use agentworth.Executor.{
  Deps, State, ExecuteResult, Outcome, returned, raised, halt_reason, decide, record_event,
  record_outcome,
}
use agentworth.Executor.Frame.{insert_then}
use agentworth.Executor.Operations.{execute_halted, record_decision, carry_out, execute}
use agentworth.Executor.Settlement.{Cleared, decide-auto}

abbrev pub reports_settled : Outcome ExecuteResult → Bool
reports_settled (raised e) = false
reports_settled (returned r) = is_settled r.status

module _ (d : Deps) (now : ℕ) (intent : PaymentIntent) (a : Option Attestation) (s : State) where
  -- No receipt is stored, and nothing is reported as settled.
  abbrev pub Unsettled : State × Outcome ExecuteResult → Type 0
  Unsettled r = (r.0.store.receipts ≡ s.store.receipts) × (reports_settled r.1 ≡ false)

  pub execute_halted-Unsettled : (r : Reason) → Unsettled (execute_halted d now intent r s)
  unfolding execute_halted record_event
  execute_halted-Unsettled r =
      insert_then Unsettled _ _ _ (λ old e. (refl, refl)) (λ e. (refl, refl))

  pub carry_out-Unsettled :
      (v : GateDecision) (o : GateOutcome)
      → Unsettled (carry_out d now intent v o (record_decision d now intent a v s))
        ⊎ (o ≡ auto_execute)
  unfolding carry_out record_decision record_event record_outcome set_meta
  carry_out-Unsettled v block =
      inl (insert_then Unsettled _ _ _ (λ old e. (refl, refl)) (λ e. (refl, refl)))
  carry_out-Unsettled v confirm_operator =
      inl (insert_then Unsettled _ _ _ (λ old e. (refl, refl)) (λ e. (refl, refl)))
  carry_out-Unsettled v auto_execute = inr refl

  pub execute-Unsettled : Unsettled (execute d now intent a s) ⊎ Cleared d now intent a s
  unfolding execute
  execute-Unsettled = elim (Option-cases (halt_reason d s)) [
    | inr (r, e) ↦ inl (rw (e, execute) (execute_halted-Unsettled r))
    | inl e ↦
        elim (carry_out-Unsettled (decide d now intent a s) (decide d now intent a s).outcome) [
          | inl same ↦ inl (rw (e, execute) same)
          | inr auto ↦ inr (decide-auto d now intent a s e auto)
        ]
  ]
