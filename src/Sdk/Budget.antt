-- ===== src/Sdk/Budget.antt =====
-- Budgets after any history of calls of src/sdk/index.ts: mandates stay under their own ids.
use agentworth.Prelude.{
  ℕ, ◌≤◌, ◌≡◌, refl, String, Option, some, [], ◌∷◌, eq_iff, arith, inl, inr, Option-cases,
}
use agentworth.Prelude.Map.{Map, get, set, Keyed, Keyed-set, Keyed-get}
use agentworth.Types.{Mandate, PaymentIntent, Attestation}
use agentworth.Audit.{MandatePatch}
use agentworth.Store.{
  Store, ok, insert_mandate, revoke_mandate, update_mandate, get_mandate, set_meta, insert_receipt,
}
use agentworth.Executor.{Deps, State, record_event}
use agentworth.Executor.Operations.{execute}
use agentworth.Executor.Budget.{spent, Filed, execute-Within}
use agentworth.Sdk.History.{Invariant, Reach, Reach-keeps, empty_state}

abbrev id_of : Mandate → String
id_of m = m.id

Keeps : State → Type 0
Keeps s = Keyed id_of s.store.mandates

update_mandate-Keyed :
    (id : String) (p : MandatePatch) (st : Store)
    → Keyed id_of st.mandates
    → Keyed id_of (update_mandate id p st).mandates
unfolding update_mandate
update_mandate-Keyed id p st h = elim (Option-cases (get id st.mandates)) [
  | inl e ↦ rw (e, update_mandate) h
  | inr (m, e) ↦ rw (e, update_mandate) (Keyed-set id_of id _ st.mandates refl h)
]

Keyed-named :
    (id : String) (ms : Map Mandate) (m : Mandate) → Keyed id_of ms → get id ms ≡ some m → m.id ≡ id
unfolding get
Keyed-named id [] m h e = cc
Keyed-named id ((j, w) ∷ ms) m h e = ground (arith, eq_iff j id, h.0, Keyed-named id ms m h.2)

revoke_mandate-Keyed :
    (id : String) (st : Store)
    → Keyed id_of st.mandates
    → Keyed id_of (revoke_mandate id st).mandates
unfolding revoke_mandate
revoke_mandate-Keyed id st h = elim (Option-cases (get id st.mandates)) [
  | inl e ↦ rw (e, revoke_mandate) h
  | inr (m, e) ↦
      rw (e, revoke_mandate) (Keyed-set id_of id _ st.mandates (Keyed-named id st.mandates m h e) h)
]

insert_mandate-Keyed :
    (m : Mandate) (st st' : Store)
    → insert_mandate m st ≡ ok st'
    → Keyed id_of st.mandates
    → Keyed id_of st'.mandates
unfolding insert_mandate
insert_mandate-Keyed m st st' e h =
    let same : st'.mandates ≡ set m.id m st.mandates = ground arith in
    rw same (Keyed-set id_of m.id m st.mandates refl h)

module _ (d : Deps) where
  Keeps-Invariant : Invariant d Keeps
  unfolding Keeps set_meta insert_receipt record_event
  Keeps-Invariant = record {
    closed = record {
      on_record = λ type p ts s h. h;
      on_meta = λ k v s h. h;
      on_receipt = λ r s h. h;
      on_insert = λ si s e f h. h;
      on_update = λ id u old s e r h. h;
      on_patch = λ id p s h. update_mandate-Keyed id p s.store h;
    };
    on_mandate = λ m st s e h. insert_mandate-Keyed m s.store st e h;
    on_revoke = λ id s h. revoke_mandate-Keyed id s.store h;
  }

  Reach-Filed : (s : State) → Reach d empty_state s → Filed s
  unfolding Keeps
  Reach-Filed s r =
      let keyed = Reach-keeps d Keeps Keeps-Invariant r tt in
      record { file = λ m i. Keyed-get id_of s.store.mandates m keyed i }

  -- After any history of calls from an empty store, a call of `execute` keeps a stored mandate
  -- within its period cap, as the store counts what is spent at the instant of the call, whatever
  -- the call returns or throws and whatever the receipt says, when the payment is in the mandate's
  -- currency.
  pub execute-budget :
      (now : ℕ) (intent : PaymentIntent) (a : Option Attestation) (s : State) (m : Mandate)
      → Reach d empty_state s
      → get_mandate m.id s.store ≡ some m
      → m.currency ≡ intent.currency
      → spent m.id now s.store ≤ m.per_period_cap
      → spent m.id now (execute d now intent a s).0.store ≤ m.per_period_cap
  execute-budget now intent a s m r kept money h =
      execute-Within d now intent m a s (Reach-Filed s r) kept money h
