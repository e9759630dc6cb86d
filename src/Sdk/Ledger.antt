-- ===== src/Sdk/Ledger.antt =====
-- The ledger of payments after any history of calls: refunds of src/core/executor.ts.
use agentworth.Prelude.{ℕ, ◌≤◌, ◌≡◌, refl, ap, String, some, arith, get_or, eq_iff}
use agentworth.Prelude.Map.{get, set, get-set}
use agentworth.Types.{Mandate, minor_units}
use agentworth.Audit.{MandatePatch}
use agentworth.Store.{
  Store, StoredIntent, IntentUpdate, updated, ok, insert_mandate, revoke_mandate, update_mandate,
  set_meta, insert_receipt,
}
use agentworth.Executor.{Deps, State, record_event}
use agentworth.Executor.Frame.{with_intents}
use agentworth.Executor.Closed.{Refundable}
use agentworth.Sdk.History.{Invariant, Reach, Reach-keeps, empty_state}

abbrev pub refunded_of : StoredIntent → ℕ
refunded_of si = get_or si.refunded_minor 0

abbrev Entry : String → StoredIntent → State → Type 0
Entry id si s = get id s.store.intents ≡ some si

-- An entry stands under the id of its intent, and is not refunded beyond its amount.
pub record Sound (s : State) : Type 0 where
  pub named :
      (id : String) (si : StoredIntent) → get id s.store.intents ≡ some si → si.intent.id ≡ id
  pub bounded :
      (id : String) (si : StoredIntent)
      → get id s.store.intents ≡ some si
      → refunded_of si ≤ minor_units si.intent.amount

Sound-transport : (s t : State) → t.store.intents ≡ s.store.intents → Sound s → Sound t
Sound-transport s t e h = record {
  named = λ id si k. h.named id si (rw e at k);
  bounded = λ id si k. h.bounded id si (rw e at k);
}

Sound-set :
    (s : State) (k : String) (v : StoredIntent)
    → Sound s
    → v.intent.id ≡ k
    → refunded_of v ≤ minor_units v.intent.amount
    → Sound (with_intents (set k v s.store.intents) s)
Sound-set s k v h named bounded = record {
  named = λ id si e. ground (arith, get-set k id v s.store.intents, eq_iff k id, h.named id si);
  bounded = λ id si e. ground (arith, get-set k id v s.store.intents, h.bounded id si);
}

updated-bounded :
    (old : StoredIntent) (u : IntentUpdate)
    → Refundable old u
    → refunded_of old ≤ minor_units old.intent.amount
    → refunded_of (updated old u) ≤ minor_units old.intent.amount
unfolding updated
updated-bounded old u r h = ground arith

intents-update_mandate :
    (id : String) (p : MandatePatch) (st : Store) → (update_mandate id p st).intents ≡ st.intents
unfolding update_mandate
intents-update_mandate id p st = ground arith

intents-revoke_mandate : (id : String) (st : Store) → (revoke_mandate id st).intents ≡ st.intents
unfolding revoke_mandate
intents-revoke_mandate id st = ground arith

intents-insert_mandate :
    (m : Mandate) (st st' : Store) → insert_mandate m st ≡ ok st' → st'.intents ≡ st.intents
unfolding insert_mandate
intents-insert_mandate m st st' h = ground arith

module _ (d : Deps) where
  Sound-Invariant : Invariant d Sound
  unfolding set_meta insert_receipt record_event updated
  Sound-Invariant = record {
    closed = record {
      on_record = λ type p ts s h. Sound-transport s _ refl h;
      on_meta = λ k v s h. Sound-transport s _ refl h;
      on_receipt = λ r s h. Sound-transport s _ refl h;
      on_insert =
          λ si s e f h. Sound-set s si.intent.id si h refl (omega (arith, ap (λ o. get_or o 0) e));
      on_update = λ id u old s e r h.
          Sound-set s id (updated old u) h (h.named id old e)
            (updated-bounded old u r (h.bounded id old e));
      on_patch = λ id p s h. Sound-transport s _ (intents-update_mandate id p s.store) h;
    };
    on_mandate = λ m st s e h. Sound-transport s _ (intents-insert_mandate m s.store st e) h;
    on_revoke = λ id s h. Sound-transport s _ (intents-revoke_mandate id s.store) h;
  }

  -- After any history of calls that starts from an empty store, in which refunds are asked for
  -- in whole amounts of minor units, no payment is refunded beyond its amount, and every entry of the ledger stands under the id of its own intent.
  pub Reach-Sound : (s : State) → Reach d empty_state s → Sound s
  unfolding get
  Reach-Sound s r =
      Reach-keeps d Sound Sound-Invariant r
        (record { named = λ id si e. cc; bounded = λ id si e. cc })
