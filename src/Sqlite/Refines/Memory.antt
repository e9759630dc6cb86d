-- ===== src/Sqlite/Refines/Memory.antt =====
-- What a write of the memory store of src/core/store.ts does, by what the store has under the id.
use agentworth.Prelude.{◌≡◌, refl, String, none, some}
use agentworth.Prelude.Map.{get, set}
use agentworth.Types.{Mandate, revoked}
use agentworth.Audit.{MandatePatch}
use agentworth.Store.{
  Store, StoredIntent, IntentUpdate, Meta, Stored, ok, throws, patch_mandate, updated,
}
use agentworth.Store

module _ (s : Store) where
  pub insert_mandate-fresh :
      (m : Mandate)
      → get m.id s.mandates ≡ none
      → Store.insert_mandate m s ≡ ok (record s { mandates = set m.id m s.mandates })
  unfolding Store.insert_mandate
  insert_mandate-fresh m e = rw (e, Store.insert_mandate) refl

  pub insert_mandate-held :
      (m n : Mandate)
      → get m.id s.mandates ≡ some n
      → Store.insert_mandate m s ≡ throws (Store.mandate_exists m.id)
  unfolding Store.insert_mandate
  insert_mandate-held m n e = rw (e, Store.insert_mandate) refl

  pub revoke_mandate-absent :
      (id : String) → get id s.mandates ≡ none → Store.revoke_mandate id s ≡ s
  unfolding Store.revoke_mandate
  revoke_mandate-absent id e = rw (e, Store.revoke_mandate) refl

  pub revoke_mandate-held :
      (id : String) (m : Mandate)
      → get id s.mandates ≡ some m
      → Store.revoke_mandate id s
        ≡ record s { mandates = set id (record m { status = revoked }) s.mandates }
  unfolding Store.revoke_mandate
  revoke_mandate-held id m e = rw (e, Store.revoke_mandate) refl

  pub update_mandate-absent :
      (id : String) (p : MandatePatch) → get id s.mandates ≡ none → Store.update_mandate id p s ≡ s
  unfolding Store.update_mandate
  update_mandate-absent id p e = rw (e, Store.update_mandate) refl

  pub update_mandate-held :
      (id : String) (p : MandatePatch) (m : Mandate)
      → get id s.mandates ≡ some m
      → Store.update_mandate id p s
        ≡ record s { mandates = set id (patch_mandate m p id) s.mandates }
  unfolding Store.update_mandate
  update_mandate-held id p m e = rw (e, Store.update_mandate) refl

  pub insert_intent-fresh :
      (si : StoredIntent)
      → get si.intent.id s.intents ≡ none
      → Store.insert_intent si s ≡ ok (record s { intents = set si.intent.id si s.intents })
  unfolding Store.insert_intent
  insert_intent-fresh si e = rw (e, Store.insert_intent) refl

  pub insert_intent-held :
      (si other : StoredIntent)
      → get si.intent.id s.intents ≡ some other
      → Store.insert_intent si s ≡ throws (Store.intent_exists si.intent.id)
  unfolding Store.insert_intent
  insert_intent-held si other e = rw (e, Store.insert_intent) refl

  pub update_intent-absent :
      (id : String) (u : IntentUpdate)
      → get id s.intents ≡ none
      → Store.update_intent id u s ≡ throws (Store.intent_missing id)
  unfolding Store.update_intent
  update_intent-absent id u e = rw (e, Store.update_intent) refl

  pub update_intent-held :
      (id : String) (u : IntentUpdate) (si : StoredIntent)
      → get id s.intents ≡ some si
      → Store.update_intent id u s ≡ ok (record s { intents = set id (updated si u) s.intents })
  unfolding Store.update_intent
  update_intent-held id u si e = rw (e, Store.update_intent) refl
