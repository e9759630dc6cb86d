-- ===== src/Executor/Review.antt =====
-- What an operator's approval can and cannot let through: src/core/executor.ts.
use agentworth.Prelude.{
  ℕ, ◌≡◌, refl, ◌≢◌, ◌⊎◌, inl, inr, ◌&&◌, not, String, Bool, true, Option, none, some, arith,
  Bool-cases,
}
use agentworth.Types.{
  PaymentIntent, GateOutcome, auto_execute, confirm_operator, block, GateDecision, Reason,
}
use agentworth.Store.{StoredIntent, is_pending, get_intent, set_meta}
use agentworth.Executor.{
  Deps, State, ExecuteResult, Outcome, halt_reason, gate_verdict, record_event, record_outcome,
}
use agentworth.Executor.Frame.{update_then}
use agentworth.Executor.Approval.{
  requires_challenge, approve_within, approve_decided, approve_unless, approve_stored, approve,
}
use agentworth.Executor.Settlement.{Running, halt_reason-none}

-- The operator released a pending payment that the gate, asked again, does not block.
pub record Released (d : Deps) (now : ℕ) (id : String) (acknowledged : Bool) (s : State)
    : Type 0 where
  pub entry : StoredIntent
  pub kept : get_intent id s.store ≡ some entry
  pub waiting : is_pending entry.status ≡ true
  pub running : Running d s
  pub unblocked : (gate_verdict d now entry.intent none s).outcome ≢ block
  pub challenged :
      requires_challenge d entry.intent (gate_verdict d now entry.intent none s) ≡ true
      → acknowledged ≡ true

module _ (d : Deps) (now : ℕ) (id rationale : String) (acknowledged : Bool) (s : State) where
  abbrev Same : State × Outcome ExecuteResult → Type 0
  Same r = r.0.store.receipts ≡ s.store.receipts

  receipts-approve_within :
      (intent : PaymentIntent) (v : GateDecision) (t : State)
      → t.store.receipts ≡ s.store.receipts
      → Same (approve_within d now id intent v acknowledged t)
        ⊎ (requires_challenge d intent v ≡ true → acknowledged ≡ true)
  unfolding approve_within
  receipts-approve_within intent v t h =
      elim (Bool-cases (requires_challenge d intent v && not acknowledged)) [
        | inl withheld ↦ inl (rw withheld h)
        | inr let_through ↦ inr (λ needed. ground arith)
      ]

  receipts-approve_decided :
      (intent : PaymentIntent) (v : GateDecision) (o : GateOutcome) (t : State)
      → t.store.receipts ≡ s.store.receipts
      → Same (approve_decided d now id intent v o acknowledged t)
        ⊎ ((o ≢ block) × (requires_challenge d intent v ≡ true → acknowledged ≡ true))
  unfolding approve_decided record_outcome set_meta
  receipts-approve_decided intent v block t h = inl (update_then Same _ _ _ _ (λ e. h) (λ old e. h))
  receipts-approve_decided intent v auto_execute t h = elim (receipts-approve_within intent v t h) [
    | inl same ↦ inl same
    | inr asked ↦ inr (λ e. cc, asked)
  ]
  receipts-approve_decided intent v confirm_operator t h =
      elim (receipts-approve_within intent v t h) [
        | inl same ↦ inl same
        | inr asked ↦ inr (λ e. cc, asked)
      ]

  receipts-approve_unless :
      (si : StoredIntent) (o : Option Reason)
      → halt_reason d s ≡ o
      → get_intent id s.store ≡ some si
      → is_pending si.status ≡ true
      → Same (approve_unless d now id si.intent rationale acknowledged o s)
        ⊎ Released d now id acknowledged s
  unfolding approve_unless record_event
  receipts-approve_unless si (some r) e kept waiting = inl refl
  receipts-approve_unless si none e kept waiting =
      let v = gate_verdict d now si.intent none s in
      elim (receipts-approve_decided si.intent v v.outcome _ refl) [
        | inl same ↦ inl same
        | inr (unblocked, asked) ↦ inr (record {
          entry = si;
          kept = kept;
          waiting = waiting;
          running = halt_reason-none d s e;
          unblocked = unblocked;
          challenged = asked;
        })
      ]

  receipts-approve_stored :
      (o : Option StoredIntent)
      → get_intent id s.store ≡ o
      → Same (approve_stored d now id rationale acknowledged o s) ⊎ Released d now id acknowledged s
  unfolding approve_stored
  receipts-approve_stored none e = inl refl
  receipts-approve_stored (some si) e = elim (Bool-cases (is_pending si.status)) [
    | inl waiting ↦ rw waiting (receipts-approve_unless si (halt_reason d s) refl e waiting)
    | inr other ↦ inl (rw other)
  ]

  -- `approve` stores no receipt, whether it returns or throws, unless the intent was pending, the
  -- executor is not halted, the gate, asked again on the current state, does not block the
  -- payment, and the operator acknowledged the challenge if the payment requires one.
  pub approve-Released :
      ((approve d now id rationale acknowledged s).0.store.receipts ≡ s.store.receipts)
      ⊎ Released d now id acknowledged s
  unfolding approve
  approve-Released = receipts-approve_stored (get_intent id s.store) refl
