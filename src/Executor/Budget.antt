-- ===== src/Executor/Budget.antt =====
-- The budget of a mandate over a call of `execute` of src/core/executor.ts.
use agentworth.Prelude.{
  ℕ, ◌+◌, ◌≤◌, ◌≡◌, refl, sym, ap, ◌∙◌, String, Bool, true, ◌&&◌, Option, none, some, List, [], ◌∷◌,
  ◌++◌, filter, arith, eq_iff, if◌then◌else◌, In, inl, inr, Option-cases,
}
use agentworth.Prelude.Map.{Map, get, set, values}
use agentworth.Types.{
  Mandate, PaymentIntent, Attestation, minor_units, Receipt, GateDecision, GateOutcome,
  auto_execute, confirm_operator, block, Reason,
}
use agentworth.Gate.{spent_of, amount_in, Converter}
use agentworth.Store.{
  StoredIntent, is_settled, same_mandate, counts_for, net, spend_since, period_spend, period_start,
  Store, set_meta, insert_receipt, get_mandate, list_active_mandates, get_mandate,
  list_active_mandates,
}
use agentworth.Rails.{Provider, Attempt, done, threw, get_provider}
use agentworth.Executor.{
  Deps, State, ExecuteResult, Outcome, record_event, record_outcome, decide, halt_reason, context,
}
use agentworth.Executor.Settlement.{Cleared, decide-auto}
use agentworth.Executor.Operations.{
  settled_by, settle_with, settle, finish, carry_out, execute_halted, record_decision, execute,
}
use agentworth.Executor.Frame.{insert_then}

abbrev pub spent : String → ℕ → Store → ℕ
spent id now s = spent_of (period_spend id now s)

values-set :
    (k : String) (v : StoredIntent) (m : Map StoredIntent)
    → get k m ≡ none
    → values (set k v m) ≡ values m ++ v ∷ []
unfolding get set
values-set k v [] h = refl
values-set k v ((j, w) ∷ m) h = ground (arith, values-set k v m)

spend_since-append :
    (id : String) (start : ℕ) (xs : List StoredIntent) (si : StoredIntent)
    → spent_of (spend_since id start (xs ++ si ∷ []))
      ≡ spent_of (spend_since id start xs) + (if counts_for id start si then net si else 0)
spend_since-append id start [] si = ground arith
spend_since-append id start (x ∷ xs) si = ground (arith, spend_since-append id start xs si)

-- What an entry adds to the spend of a mandate.
abbrev pub adds : String → StoredIntent → ℕ
adds id si = if is_settled si.status && same_mandate id si.mandate_id then net si else 0

counts_for-adds :
    (id : String) (start : ℕ) (si : StoredIntent)
    → (if counts_for id start si then net si else 0) ≤ adds id si
unfolding counts_for
counts_for-adds id start si = ground arith

spent-insert :
    (id : String) (now : ℕ) (si : StoredIntent) (s : Store)
    → get si.intent.id s.intents ≡ none
    → spent id now (record s { intents = set si.intent.id si s.intents })
      ≤ spent id now s + adds id si
unfolding period_spend
spent-insert id now si s fresh = elim (Option-cases (get id s.mandates)) [
  | inl e ↦ rw (e, period_spend) (omega arith)
  | inr (m, e) ↦
      rw (e, period_spend, values-set si.intent.id si s.intents fresh)
        (omega (
          arith,
          spend_since-append id (period_start now m.period) (values s.intents) si,
          counts_for-adds id (period_start now m.period) si,
        ))
]

spent-same :
    (id : String) (now : ℕ) (s t : Store)
    → t.mandates ≡ s.mandates
    → t.intents ≡ s.intents
    → spent id now t ≡ spent id now s
unfolding period_spend
spent-same id now s t m i = rw (m, i)

-- An entry is inserted, and nothing that follows changes what was spent.
inserted-Within :
    (id : String) (now bound : ℕ) (si : StoredIntent) (s t : Store)
    → get si.intent.id s.intents ≡ none
    → t.mandates ≡ s.mandates
    → t.intents ≡ set si.intent.id si s.intents
    → spent id now s + adds id si ≤ bound
    → spent id now t ≤ bound
inserted-Within id now bound si s t fresh m i h = omega (
  arith,
  spent-same id now (record s { intents = set si.intent.id si s.intents }) t m i,
  spent-insert id now si s fresh,
)

In-filter : (p : Mandate → Bool) (ms : List Mandate) (m : Mandate) → In m (filter p ms) → In m ms
In-filter p [] m i = i
In-filter p (n ∷ ms) m i = ground (arith, In-filter p ms m)

amount_in-same :
    (m : Mandate) (intent : PaymentIntent) (n : ℕ) (c : Converter)
    → m.currency ≡ intent.currency
    → amount_in m intent n c ≡ n
unfolding amount_in
amount_in-same m intent n c e = ground (arith, eq_iff m.currency intent.currency)

-- Every mandate stands under its own id.
pub record Filed (s : State) : Type 0 where
  pub file : (m : Mandate) → In m (values s.store.mandates) → get m.id s.store.mandates ≡ some m

module _ (d : Deps) (now : ℕ) (intent : PaymentIntent) (m : Mandate) where
  settled_by-frame :
      (p : Provider) (r : Attempt Receipt) (t : State)
      → spent m.id now (settled_by d intent now p r t).0.store ≡ spent m.id now t.store
  unfolding settled_by record_event insert_receipt
  settled_by-frame p (threw e) t = spent-same m.id now t.store _ refl refl
  settled_by-frame p (done r) t = spent-same m.id now t.store _ refl refl

  settle_with-frame :
      (o : Option Provider) (t : State)
      → spent m.id now (settle_with d intent now o t).0.store ≡ spent m.id now t.store
  settle_with-frame none t = refl
  settle_with-frame (some p) t = settled_by-frame p (p.settle intent now) t

  settle-frame :
      (t : State) → spent m.id now (settle d intent now t).0.store ≡ spent m.id now t.store
  unfolding settle
  settle-frame t = settle_with-frame (get_provider d.rails intent.rail) t

  abbrev Within : State × Outcome ExecuteResult → Type 0
  Within r = spent m.id now r.0.store ≤ m.per_period_cap

  finish-Within :
      (v : GateDecision) (r : State × Attempt (Receipt × Bool))
      → spent m.id now r.0.store ≤ m.per_period_cap
      → (same_mandate m.id v.mandate_id ≡ true
          → spent m.id now r.0.store + minor_units intent.amount ≤ m.per_period_cap)
      → Within (finish intent v r)
  unfolding finish record_outcome set_meta
  finish-Within v (t, threw e) h fits =
      insert_then Within t _ _ (λ old f. h)
        (λ f. inserted-Within m.id now m.per_period_cap _ t.store _ f refl refl (omega arith))
  finish-Within v (t, done (r, ok)) h fits =
      insert_then Within t _ _ (λ old f. h)
        (λ f. inserted-Within m.id now m.per_period_cap _ t.store _ f refl refl (ground arith))

  -- What the authorizing mandate has room for, if it is this one.
  room :
      (a : Option Attestation) (s : State)
      → Filed s
      → get m.id s.store.mandates ≡ some m
      → m.currency ≡ intent.currency
      → Cleared d now intent a s
      → same_mandate m.id (decide d now intent a s).mandate_id ≡ true
      → spent m.id now s.store + minor_units intent.amount ≤ m.per_period_cap
  unfolding context list_active_mandates
  room a s filed kept money c same =
      let id_eq : c.mandate.id ≡ m.id =
        (eq_iff c.mandate.id m.id).0 (ap (same_mandate m.id) (sym c.named) ∙ same) in
      let there = In-filter _ (values s.store.mandates) c.mandate c.authorized.granted in
      let filed_there = filed.file c.mandate there in
      let one : c.mandate ≡ m = cc in
      let fits = rw one at c.authorized.under_period_cap in
      rw c.authorized.whole (
        omega
          (arith, fits, amount_in-same m intent c.amount (context d now intent a s).convert money))

  carry_out-Within :
      (v : GateDecision) (o : GateOutcome) (t : State)
      → spent m.id now t.store ≤ m.per_period_cap
      → (o ≡ auto_execute
          → same_mandate m.id v.mandate_id ≡ true
          → spent m.id now t.store + minor_units intent.amount ≤ m.per_period_cap)
      → Within (carry_out d now intent v o t)
  unfolding carry_out record_outcome set_meta
  carry_out-Within v block t h fits =
      insert_then Within t _ _ (λ old f. h)
        (λ f. inserted-Within m.id now m.per_period_cap _ t.store _ f refl refl (omega arith))
  carry_out-Within v confirm_operator t h fits =
      insert_then Within t _ _ (λ old f. h)
        (λ f. inserted-Within m.id now m.per_period_cap _ t.store _ f refl refl (omega arith))
  carry_out-Within v auto_execute t h fits =
      finish-Within v (settle d intent now t) (omega (arith, settle-frame t))
        (λ same. omega (arith, settle-frame t, fits refl same))

  decision-frame :
      (a : Option Attestation) (s : State)
      → spent m.id now (record_decision d now intent a (decide d now intent a s) s).store
        ≡ spent m.id now s.store
  unfolding record_decision record_event
  decision-frame a s = spent-same m.id now s.store _ refl refl

  execute_halted-Within :
      (r : Reason) (s : State)
      → spent m.id now s.store ≤ m.per_period_cap
      → Within (execute_halted d now intent r s)
  unfolding execute_halted record_event
  execute_halted-Within r s h =
      insert_then Within _ _ _ (λ old f. omega (arith, spent-same m.id now s.store _ refl refl))
        (λ f. inserted-Within m.id now m.per_period_cap _ s.store _ f refl refl (omega arith))

  -- The same for any state in which every mandate is stored under its own id.
  pub execute-Within :
      (a : Option Attestation) (s : State)
      → Filed s
      → get_mandate m.id s.store ≡ some m
      → m.currency ≡ intent.currency
      → spent m.id now s.store ≤ m.per_period_cap
      → spent m.id now (execute d now intent a s).0.store ≤ m.per_period_cap
  unfolding execute get_mandate
  execute-Within a s filed kept money h = elim (Option-cases (halt_reason d s)) [
    | inr (r, e) ↦ rw (e, execute) (execute_halted-Within r s h)
    | inl e ↦
        rw (e, execute)
          (carry_out-Within (decide d now intent a s) (decide d now intent a s).outcome
            (record_decision d now intent a (decide d now intent a s) s)
            (omega (arith, decision-frame a s))
            (λ auto same.
              let fits = room a s filed kept money (decide-auto d now intent a s e auto) same in
              omega (arith, fits, decision-frame a s)))
  ]
