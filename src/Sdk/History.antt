-- ===== src/Sdk/History.antt =====
-- Every history of calls of src/sdk/index.ts and src/core/executor.ts, as steps of the state.
use agentworth.Prelude.{ℕ, ◌≡◌, refl, ◌⊎◌, inl, inr, String, Bool, Option, []}
use agentworth.Types.{Mandate, PaymentIntent, Attestation}
use agentworth.Audit.{MandatePatch}
use agentworth.Store.{
  Store, Stored, StoreError, empty_store, insert_mandate, ok, throws, revoke_mandate,
}
use agentworth.Executor.{Deps, State}
use agentworth.Executor.Operations.{execute}
use agentworth.Executor.Approval.{
  approve, refund, amend_mandate, extend_mandate, engage_kill_switch, disengage_kill_switch,
  reset_circuit_breaker,
}
use agentworth.Executor.Closed.{
  Closed, execute-keeps, approve-keeps, Closed-Reversals, amend_mandate-keeps, extend_mandate-keeps,
}
use agentworth.Executor.Refunds.{refund-keeps}
use agentworth.Sdk.{grant, revoke}

pub data Step (d : Deps) (s : State) : State → Type 0 where
  pays :
      (now : ℕ) (intent : PaymentIntent) (a : Option Attestation)
      → Step d s (execute d now intent a s).0
  approves :
      (now : ℕ) (id rationale : String) (ack : Bool) → Step d s (approve d now id rationale ack s).0
  refunds :
      (now : ℕ) (id : String) (amount : Option ℕ) (reason : Option String)
      → Step d s (refund d now id amount reason s).0
  grants : (now : ℕ) (m : Mandate) → Step d s (grant d now m s).0
  revokes : (now : ℕ) (id : String) → Step d s (revoke d now id s)
  amends : (now : ℕ) (id : String) (p : MandatePatch) → Step d s (amend_mandate d now id p s)
  extends : (now : ℕ) (id : String) (until : ℕ) → Step d s (extend_mandate d now id until s)
  kills : Step d s (engage_kill_switch s)
  revives : Step d s (disengage_kill_switch s)
  resets : Step d s (reset_circuit_breaker s)

-- The states that calls lead to from `s`.
pub data Reach (d : Deps) (s : State) : State → Type 0 where
  here : Reach d s s
  next : {t u : State} → Reach d s t → Step d t u → Reach d s u

abbrev pub empty_state : State
empty_state = record { store = empty_store; log = [] }

-- An invariant is kept by the facade too if it is kept by its own writes of mandates.
pub record Invariant (d : Deps) (P : State → Type 0) : Type 0 where
  pub closed : Closed d P
  pub on_mandate :
      (m : Mandate) (st : Store) (s : State)
      → insert_mandate m s.store ≡ ok st
      → P s
      → P (record s { store = st })
  pub on_revoke :
      (id : String) (s : State) → P s → P (record s { store = revoke_mandate id s.store })

pub Stored-cases : (r : Stored) → ((e : StoreError) × (r ≡ throws e)) ⊎ ((st : Store) × (r ≡ ok st))
Stored-cases (throws e) = inl (e, refl)
Stored-cases (ok st) = inr (st, refl)

module _ (d : Deps) (P : State → Type 0) (i : Invariant d P) where
  grant-keeps : (now : ℕ) (m : Mandate) (s : State) → P s → P (grant d now m s).0
  unfolding grant
  grant-keeps now m s h = elim (Stored-cases (insert_mandate m s.store)) [
    | inl (e, f) ↦ rw (f, grant) h
    | inr (st, f) ↦ rw (f, grant) (i.closed.on_record _ _ _ _ (i.on_mandate m st s f h))
  ]

  pub Step-keeps : {s t : State} → Step d s t → P s → P t
  unfolding revoke engage_kill_switch disengage_kill_switch reset_circuit_breaker
  Step-keeps {s} (pays now intent a) h = execute-keeps d P i.closed now intent a s h
  Step-keeps {s} (approves now id rationale ack) h =
      approve-keeps d P i.closed now id rationale ack s h
  Step-keeps {s} (refunds now id amount reason) h =
      refund-keeps d P (Closed-Reversals i.closed) now id amount reason s h
  Step-keeps {s} (grants now m) h = grant-keeps now m s h
  Step-keeps {s} (revokes now id) h = i.closed.on_record _ _ _ _ (i.on_revoke id s h)
  Step-keeps {s} (amends now id p) h = amend_mandate-keeps d P i.closed now id p s h
  Step-keeps {s} (extends now id until) h = extend_mandate-keeps d P i.closed now id until s h
  Step-keeps {s} kills h = i.closed.on_meta _ _ s h
  Step-keeps {s} revives h = i.closed.on_meta _ _ s h
  Step-keeps {s} resets h = i.closed.on_meta _ _ s h

  pub Reach-keeps : {s t : State} → Reach d s t → P s → P t
  Reach-keeps here h = h
  Reach-keeps (next r st) h = Step-keeps st (Reach-keeps r h)
