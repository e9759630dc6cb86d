-- ===== src/Sdk/Halted.antt =====
-- The kill switch of src/core/executor.ts: what happens to money while it is engaged.
use agentworth.Prelude.{
  ℕ, ◌≡◌, refl, ◌∙◌, String, Bool, true, false, Option, none, some, arith, inl, inr, Bool-cases,
}
use agentworth.Prelude.Map.{Map, get-set}
use agentworth.Types.{Mandate, PaymentIntent, Attestation, Receipt, kill_switch_engaged, Reason}
use agentworth.Audit.{MandatePatch}
use agentworth.Store.{
  Store, StoredIntent, is_pending, ok, Meta, set_meta, get_meta, insert_mandate, revoke_mandate,
  update_mandate, get_intent,
}
use agentworth.Executor.{Deps, State, kill_key, fail_key, is_killed, halt_reason, record_event}
use agentworth.Executor.Frame.{insert_then}
use agentworth.Executor.Operations.{execute, execute_halted}
use agentworth.Executor.Approval.{
  approve, approve_stored, approve_unless, amend_mandate, extend_mandate, engage_kill_switch,
  reset_circuit_breaker,
}
use agentworth.Executor.Closed.{Reversals}
use agentworth.Executor.Refunds.{refund-keeps}
use agentworth.Sdk.{grant, revoke}
use agentworth.Sdk.History.{
  Step, pays, approves, refunds, grants, revokes, amends, extends, kills, revives, resets,
  Stored-cases,
}

-- The switch is engaged, and the receipts are still those that were there.
pub record Killed (kept : Map Receipt) (s : State) : Type 0 where
  pub engaged : is_killed s ≡ true
  pub unpaid : s.store.receipts ≡ kept

abbrev pub is_revival : {d : Deps} {s t : State} → Step d s t → Bool
is_revival revives = true
is_revival _ = false

-- The states that calls lead to without a call of `disengageKillSwitch`.
pub data Unrevived (d : Deps) (s : State) : State → Type 0 where
  here : Unrevived d s s
  next :
      {t u : State} → Unrevived d s t → (st : Step d t u) → is_revival st ≡ false → Unrevived d s u

module _ (d : Deps) (kept : Map Receipt) where
  Killed-transport :
      (s t : State)
      → t.store.meta ≡ s.store.meta
      → t.store.receipts ≡ s.store.receipts
      → Killed kept s
      → Killed kept t
  unfolding is_killed get_meta
  Killed-transport s t m r h = record { engaged = rw m h.engaged; unpaid = r ∙ h.unpaid }

  Killed-Reversals : Reversals d (Killed kept)
  unfolding record_event
  Killed-Reversals = record {
    on_record = λ type p ts s h. Killed-transport s _ refl refl h;
    on_update = λ id u old s e r h. Killed-transport s _ refl refl h;
  }

  halt_reason-killed : (s : State) → is_killed s ≡ true → halt_reason d s ≡ some kill_switch_engaged
  unfolding halt_reason
  halt_reason-killed s h = rw h

  execute_halted-Killed :
      (now : ℕ) (intent : PaymentIntent) (r : Reason) (s : State)
      → Killed kept s
      → Killed kept (execute_halted d now intent r s).0
  unfolding execute_halted record_event
  execute_halted-Killed now intent r s h =
      insert_then (λ r. Killed kept r.0) _ _ _ (λ old e. Killed-transport s _ refl refl h)
        (λ e. Killed-transport s _ refl refl h)

  execute-Killed :
      (now : ℕ) (intent : PaymentIntent) (a : Option Attestation) (s : State)
      → Killed kept s
      → Killed kept (execute d now intent a s).0
  unfolding execute
  execute-Killed now intent a s h =
      rw (halt_reason-killed s h.engaged) (execute_halted-Killed now intent kill_switch_engaged s h)

  approve_stored-Killed :
      (now : ℕ) (id rationale : String) (ack : Bool) (o : Option StoredIntent) (s : State)
      → Killed kept s
      → Killed kept (approve_stored d now id rationale ack o s).0
  unfolding approve_stored approve_unless record_event
  approve_stored-Killed now id rationale ack none s h = h
  approve_stored-Killed now id rationale ack (some si) s h =
      elim (Bool-cases (is_pending si.status)) [
        | inl e ↦
            rw (e, halt_reason-killed s h.engaged, approve_unless)
              (Killed-transport s _ refl refl h)
        | inr e ↦ rw e h
      ]

  insert_mandate-Killed :
      (m : Mandate) (st : Store) (s : State)
      → insert_mandate m s.store ≡ ok st
      → Killed kept s
      → Killed kept (record s { store = st })
  unfolding insert_mandate
  insert_mandate-Killed m st s e h = Killed-transport s _ (ground arith) (ground arith) h

  grant-Killed :
      (now : ℕ) (m : Mandate) (s : State) → Killed kept s → Killed kept (grant d now m s).0
  unfolding grant record_event
  grant-Killed now m s h = elim (Stored-cases (insert_mandate m s.store)) [
    | inl (e, f) ↦ rw (f, grant) h
    | inr (st, f) ↦
        rw (f, grant)
          (Killed-transport (record s { store = st }) _ refl refl
            (insert_mandate-Killed m st s f h))
  ]

  update_mandate-Killed :
      (id : String) (p : MandatePatch) (s : State)
      → Killed kept s
      → Killed kept (record s { store = update_mandate id p s.store })
  unfolding update_mandate
  update_mandate-Killed id p s h = Killed-transport s _ (ground arith) (ground arith) h

  revoke_mandate-Killed :
      (id : String) (s : State)
      → Killed kept s
      → Killed kept (record s { store = revoke_mandate id s.store })
  unfolding revoke_mandate
  revoke_mandate-Killed id s h = Killed-transport s _ (ground arith) (ground arith) h

  Step-Killed :
      {s t : State} (st : Step d s t) → is_revival st ≡ false → Killed kept s → Killed kept t
  unfolding approve revoke amend_mandate extend_mandate engage_kill_switch reset_circuit_breaker
      record_event is_killed get_meta set_meta
  Step-Killed {s} (pays now intent a) n h = execute-Killed now intent a s h
  Step-Killed {s} (approves now id rationale ack) n h =
      approve_stored-Killed now id rationale ack (get_intent id s.store) s h
  Step-Killed {s} (refunds now id amount reason) n h =
      refund-keeps d (Killed kept) Killed-Reversals now id amount reason s h
  Step-Killed {s} (grants now m) n h = grant-Killed now m s h
  Step-Killed {s} (revokes now id) n h =
      Killed-transport _ _ refl refl (revoke_mandate-Killed id s h)
  Step-Killed {s} (amends now id p) n h =
      Killed-transport _ _ refl refl (update_mandate-Killed id p s h)
  Step-Killed {s} (extends now id until) n h =
      Killed-transport _ _ refl refl (update_mandate-Killed id _ s h)
  Step-Killed {s} kills n h = record {
    engaged = rw (get-set kill_key kill_key (Meta.text "1") s.store.meta);
    unpaid = h.unpaid;
  }
  Step-Killed {s} revives n h = cc
  Step-Killed {s} resets n h = record {
    engaged = rw (get-set fail_key kill_key (Meta.counter 0) s.store.meta) h.engaged;
    unpaid = h.unpaid;
  }

-- From the call that engages the kill switch on, whatever is called in whatever order, no receipt
-- is added and the switch stays engaged, until the operator disengages it.
pub Unrevived-Killed :
    (d : Deps) (s t : State) → Unrevived d (engage_kill_switch s) t → Killed s.store.receipts t
unfolding engage_kill_switch is_killed get_meta set_meta
Unrevived-Killed d s t here = record {
  engaged = rw (get-set kill_key kill_key (Meta.text "1") s.store.meta);
  unpaid = refl;
}
Unrevived-Killed d s t (next r st n) =
    Step-Killed d s.store.receipts st n (Unrevived-Killed d s _ r)
