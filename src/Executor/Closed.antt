-- ===== src/Executor/Closed.antt =====
-- An invariant of the executor's state needs to be kept by the few writes that src/core/executor.ts
-- makes; then every operation keeps it, whatever it returns or throws.
use agentworth.Prelude.{
  ℕ, ◌≤◌, ◌≡◌, refl, ◌⊎◌, inl, inr, ◌&&◌, not, String, Bool, Option, none, some, get_or, Bool-cases,
}
use agentworth.Prelude.Map.{get, set}
use agentworth.Types.{
  PaymentIntent, Attestation, GateOutcome, auto_execute, confirm_operator, block, GateDecision,
  Reason, Receipt, minor_units,
}
use agentworth.Audit.{AuditEventType, Payload, MandatePatch}
use agentworth.Rails.{Provider, Attempt, done, threw, get_provider}
use agentworth.Store.{
  StoredIntent, is_pending, IntentUpdate, updated, Meta, set_meta, insert_receipt, update_mandate,
  get_intent,
}
use agentworth.Executor.{Deps, State, Kind, good, bad, halt_reason, record_event, record_outcome}
use agentworth.Executor.Frame.{with_intents, insert_then, update_then}
use agentworth.Executor.Operations.{
  settled_by, settle_with, settle, execute_halted, record_decision, finish, carry_out,
  execute_unless, execute,
}
use agentworth.Executor.Approval.{
  requires_challenge, finish_approval, approve_within, approve_decided, approve_unless,
  approve_stored, approve, amend_mandate, extend_mandate,
}

-- No refund that is written exceeds the payment.
abbrev pub Refundable : StoredIntent → IntentUpdate → Type 0
Refundable old u =
    (u.refunded_minor ≡ none) ⊎ (get_or u.refunded_minor 0 ≤ minor_units old.intent.amount)

pub record Closed (d : Deps) (P : State → Type 0) : Type 0 where
  pub on_record :
      (type : AuditEventType) (p : Payload) (ts : ℕ) (s : State)
      → P s
      → P (record_event d type p ts s)
  pub on_meta :
      (k : String) (v : Meta) (s : State) → P s → P (record s { store = set_meta k v s.store })
  pub on_receipt :
      (r : Receipt) (s : State) → P s → P (record s { store = insert_receipt r s.store })
  pub on_insert :
      (si : StoredIntent) (s : State)
      → si.refunded_minor ≡ none
      → get si.intent.id s.store.intents ≡ none
      → P s
      → P (with_intents (set si.intent.id si s.store.intents) s)
  pub on_update :
      (id : String) (u : IntentUpdate) (old : StoredIntent) (s : State)
      → get id s.store.intents ≡ some old
      → Refundable old u
      → P s
      → P (with_intents (set id (updated old u) s.store.intents) s)
  pub on_patch :
      (id : String) (p : MandatePatch) (s : State)
      → P s
      → P (record s { store = update_mandate id p s.store })

-- What a refund writes.
pub record Reversals (d : Deps) (P : State → Type 0) : Type 0 where
  pub on_record :
      (type : AuditEventType) (p : Payload) (ts : ℕ) (s : State)
      → P s
      → P (record_event d type p ts s)
  pub on_update :
      (id : String) (u : IntentUpdate) (old : StoredIntent) (s : State)
      → get id s.store.intents ≡ some old
      → Refundable old u
      → P s
      → P (with_intents (set id (updated old u) s.store.intents) s)

pub Closed-Reversals : {d : Deps} {P : State → Type 0} → Closed d P → Reversals d P
Closed-Reversals c = record { on_record = c.on_record; on_update = c.on_update }

module _ (d : Deps) (P : State → Type 0) (c : Closed d P) where
  outcome-keeps : (k : Kind) (s : State) → P s → P (record_outcome k s)
  unfolding record_outcome
  outcome-keeps good s h = c.on_meta _ _ s h
  outcome-keeps bad s h = c.on_meta _ _ s h

  settled_by-keeps :
      (intent : PaymentIntent) (now : ℕ) (p : Provider) (r : Attempt Receipt) (s : State)
      → P s
      → P (settled_by d intent now p r s).0
  unfolding settled_by
  settled_by-keeps intent now p (threw e) s h = c.on_record _ _ _ s h
  settled_by-keeps intent now p (done r) s h =
      c.on_record _ _ _ _ (c.on_record _ _ _ _ (c.on_receipt _ s h))

  settle_with-keeps :
      (intent : PaymentIntent) (now : ℕ) (o : Option Provider) (s : State)
      → P s
      → P (settle_with d intent now o s).0
  settle_with-keeps intent now none s h = h
  settle_with-keeps intent now (some p) s h =
      settled_by-keeps intent now p (p.settle intent now) s h

  settle-keeps : (intent : PaymentIntent) (now : ℕ) (s : State) → P s → P (settle d intent now s).0
  unfolding settle
  settle-keeps intent now s h = settle_with-keeps intent now (get_provider d.rails intent.rail) s h

  finish-keeps :
      (intent : PaymentIntent) (v : GateDecision) (r : State × Attempt (Receipt × Bool))
      → P r.0
      → P (finish intent v r).0
  unfolding finish
  finish-keeps intent v (s, threw e) h =
      insert_then (λ r. P r.0) s _ _ (λ old e. h)
        (λ e. outcome-keeps bad _ (c.on_insert _ s refl e h))
  finish-keeps intent v (s, done (r, ok)) h =
      insert_then (λ r. P r.0) s _ _ (λ old e. h)
        (λ e. outcome-keeps good _ (c.on_insert _ s refl e h))

  carry_out-keeps :
      (now : ℕ) (intent : PaymentIntent) (v : GateDecision) (o : GateOutcome) (s : State)
      → P s
      → P (carry_out d now intent v o s).0
  unfolding carry_out
  carry_out-keeps now intent v block s h =
      insert_then (λ r. P r.0) s _ _ (λ old e. h)
        (λ e. outcome-keeps bad _ (c.on_insert _ s refl e h))
  carry_out-keeps now intent v confirm_operator s h =
      insert_then (λ r. P r.0) s _ _ (λ old e. h) (λ e. c.on_insert _ s refl e h)
  carry_out-keeps now intent v auto_execute s h =
      finish-keeps intent v _ (settle-keeps intent now s h)

  execute_unless-keeps :
      (now : ℕ) (intent : PaymentIntent) (a : Option Attestation) (o : Option Reason) (s : State)
      → P s
      → P (execute_unless d now intent a o s).0
  unfolding execute_halted record_decision
  execute_unless-keeps now intent a (some r) s h =
      insert_then (λ r. P r.0) _ _ _ (λ old e. c.on_record _ _ _ s h)
        (λ e. c.on_insert _ _ refl e (c.on_record _ _ _ s h))
  execute_unless-keeps now intent a none s h =
      carry_out-keeps now intent _ _ _ (c.on_record _ _ _ s h)

  pub execute-keeps :
      (now : ℕ) (intent : PaymentIntent) (a : Option Attestation) (s : State)
      → P s
      → P (execute d now intent a s).0
  unfolding execute
  execute-keeps now intent a s h = execute_unless-keeps now intent a (halt_reason d s) s h

  finish_approval-keeps :
      (id : String) (v : GateDecision) (r : State × Attempt (Receipt × Bool))
      → P r.0
      → P (finish_approval id v r).0
  unfolding finish_approval
  finish_approval-keeps id v (s, threw e) h =
      update_then (λ r. P r.0) s _ _ _ (λ e. h)
        (λ old e. outcome-keeps bad _ (c.on_update id _ old s e (inl refl) h))
  finish_approval-keeps id v (s, done (r, ok)) h =
      update_then (λ r. P r.0) s _ _ _ (λ e. h)
        (λ old e. outcome-keeps good _ (c.on_update id _ old s e (inl refl) h))

  approve_within-keeps :
      (now : ℕ) (id : String) (intent : PaymentIntent) (v : GateDecision) (ack : Bool) (s : State)
      → P s
      → P (approve_within d now id intent v ack s).0
  unfolding approve_within
  approve_within-keeps now id intent v ack s h =
      elim (Bool-cases (requires_challenge d intent v && not ack)) [
        | inl e ↦ rw e h
        | inr e ↦ rw e (finish_approval-keeps id v _ (settle-keeps intent now s h))
      ]

  approve_decided-keeps :
      (now : ℕ) (id : String) (intent : PaymentIntent) (v : GateDecision) (o : GateOutcome)
      (ack : Bool) (s : State)
      → P s
      → P (approve_decided d now id intent v o ack s).0
  unfolding approve_decided
  approve_decided-keeps now id intent v block ack s h =
      update_then (λ r. P r.0) s _ _ _ (λ e. h)
        (λ old e. outcome-keeps bad _ (c.on_update id _ old s e (inl refl) h))
  approve_decided-keeps now id intent v auto_execute ack s h =
      approve_within-keeps now id intent v ack s h
  approve_decided-keeps now id intent v confirm_operator ack s h =
      approve_within-keeps now id intent v ack s h

  approve_unless-keeps :
      (now : ℕ) (id : String) (intent : PaymentIntent) (rationale : String) (ack : Bool)
      (o : Option Reason) (s : State)
      → P s
      → P (approve_unless d now id intent rationale ack o s).0
  unfolding approve_unless
  approve_unless-keeps now id intent rationale ack (some r) s h = c.on_record _ _ _ s h
  approve_unless-keeps now id intent rationale ack none s h =
      approve_decided-keeps now id intent _ _ ack _ (c.on_record _ _ _ s h)

  approve_stored-keeps :
      (now : ℕ) (id rationale : String) (ack : Bool) (o : Option StoredIntent) (s : State)
      → P s
      → P (approve_stored d now id rationale ack o s).0
  unfolding approve_stored
  approve_stored-keeps now id rationale ack none s h = h
  approve_stored-keeps now id rationale ack (some si) s h =
      elim (Bool-cases (is_pending si.status)) [
        | inl e ↦ rw e (approve_unless-keeps now id si.intent rationale ack (halt_reason d s) s h)
        | inr e ↦ rw e h
      ]

  pub approve-keeps :
      (now : ℕ) (id rationale : String) (ack : Bool) (s : State)
      → P s
      → P (approve d now id rationale ack s).0
  unfolding approve
  approve-keeps now id rationale ack s h =
      approve_stored-keeps now id rationale ack (get_intent id s.store) s h

  pub amend_mandate-keeps :
      (now : ℕ) (id : String) (p : MandatePatch) (s : State) → P s → P (amend_mandate d now id p s)
  unfolding amend_mandate
  amend_mandate-keeps now id p s h = c.on_record _ _ _ _ (c.on_patch id p s h)

  pub extend_mandate-keeps :
      (now : ℕ) (id : String) (until : ℕ) (s : State) → P s → P (extend_mandate d now id until s)
  unfolding extend_mandate
  extend_mandate-keeps now id until s h = c.on_record _ _ _ _ (c.on_patch id _ s h)
