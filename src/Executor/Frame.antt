-- ===== src/Executor/Frame.antt =====
-- How the writes of src/core/executor.ts end, and what the bookkeeping leaves alone.
use agentworth.Prelude.{◌≡◌, String, none, some, List, Option-cases, inl, inr}
use agentworth.Prelude.Map.{get, set}
use agentworth.Store.{
  intent_exists, intent_missing, StoredIntent, IntentUpdate, insert_intent, update_intent, updated,
}
use agentworth.Executor.{State, store_error, Outcome, raised}
use agentworth.Executor.Operations.{store_then}

abbrev pub with_intents : List (String × StoredIntent) → State → State
with_intents m s = record s { store = record s.store { intents = m } }

module _ {ℓ} {A : Type 0} (P : State × Outcome A → Type ℓ) (s : State)
    (k : State → State × Outcome A) where
  -- A new intent is refused when its id is taken.
  pub insert_then :
      (si : StoredIntent)
      → ((old : StoredIntent)
          → get si.intent.id s.store.intents ≡ some old
          → P (s, raised (store_error (intent_exists si.intent.id))))
      → (get si.intent.id s.store.intents ≡ none
          → P (k (with_intents (set si.intent.id si s.store.intents) s)))
      → P (store_then (insert_intent si s.store) s k)
  unfolding insert_intent
  insert_then si taken fresh = elim (Option-cases (get si.intent.id s.store.intents)) [
    | inl e ↦ rw (e, insert_intent) (fresh e)
    | inr (old, e) ↦ rw (e, insert_intent) (taken old e)
  ]

  -- An update is refused when the intent is missing.
  pub update_then :
      (id : String) (u : IntentUpdate)
      → (get id s.store.intents ≡ none → P (s, raised (store_error (intent_missing id))))
      → ((old : StoredIntent)
          → get id s.store.intents ≡ some old
          → P (k (with_intents (set id (updated old u) s.store.intents) s)))
      → P (store_then (update_intent id u s.store) s k)
  unfolding update_intent
  update_then id u missing found = elim (Option-cases (get id s.store.intents)) [
    | inl e ↦ rw (e, update_intent) (missing e)
    | inr (old, e) ↦ rw (e, update_intent) (found old e)
  ]
