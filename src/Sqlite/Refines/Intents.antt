-- ===== src/Sqlite/Refines/Intents.antt =====
-- What src/store/sqliteStore.ts writes in its table of intents is what the memory store writes.
use agentworth.Prelude.{
  ℕ, ◌≡◌, refl, sym, ap, ◌∙◌, String, Option, none, some, List, str_eq, find, Option-cases, inl,
  inr, get_or,
}
use agentworth.Prelude.Map.{get, set}
use agentworth.Types.{Reason}
use agentworth.Store.{
  Store, StoredIntent, IntentUpdate, Meta, Stored, ok, throws, patch_mandate, updated,
}
use agentworth.Store
use agentworth.Sqlite.{
  Json, IntentRow, Db, wrote, refused, update_where, mapped, row_to_stored_intent, intent_to_row,
}
use agentworth.Sqlite.Statements
use agentworth.Sqlite.Statements.{updated_row, or_keep}
use agentworth.Sqlite.Tables.{
  Unique-insert, Unique-update, get-table, table-insert, table-update, find-none-any, find-some-any,
}
use agentworth.Store.Calls.{insert_intent, update_intent}
use agentworth.Sqlite.Calls.{kept_intent, JsonLaws, Keys, view}
use agentworth.Sqlite.Refines.Memory.{
  insert_intent-fresh, insert_intent-held, update_intent-absent, update_intent-held,
}
use agentworth.Sqlite.Refines.Kept.{Agrees, intents-Keys}

module _ {T : Type 0} (j : Json T) (db : Db T) (keys : Keys db) where
  -- What the memory store has under an id, by the row that a statement finds.
  intent_of :
      (id : String) (o : Option (IntentRow T))
      → find (λ r. str_eq r.id id) db.intents ≡ o
      → get id (view j db).intents ≡ mapped (row_to_stored_intent j) o
  intent_of id o e =
      get-table (λ (r : IntentRow T). r.id) (row_to_stored_intent j) id db.intents
      ∙ ap (mapped (row_to_stored_intent j)) e

  pub insert_intent-Agrees : JsonLaws j → (si : StoredIntent) → Agrees j (insert_intent si) db
  unfolding Statements.insert_intent row_to_stored_intent intent_to_row
  insert_intent-Agrees laws si =
      elim (Option-cases (find (λ r. str_eq r.id si.intent.id) db.intents)) [
        | inl absent ↦
            let fresh =
              find-none-any (λ (r : IntentRow T). r.id) (row_to_stored_intent j) si.intent.id
                db.intents absent in
            let row = intent_to_row j si in
            let same : row_to_stored_intent j row ≡ kept_intent si =
              rw (laws.reasons si.reasons) refl in
            rw
              (
                fresh,
                insert_intent-fresh (view j db) (kept_intent si)
                    (intent_of si.intent.id none absent),
              )
              (
                ap (λ is. record (view j db) { intents = is })
                    (sym (table-insert (λ r. r.id) (row_to_stored_intent j) row db.intents fresh)
                      ∙ ap (λ n. set si.intent.id n (view j db).intents) same),
                refl,
                intents-Keys keys _ (Unique-insert (λ r. r.id) db.intents row fresh keys.intents),
              )
        | inr (row, found) ↦
            let held =
              find-some-any (λ (r : IntentRow T). r.id) (row_to_stored_intent j) si.intent.id row
                db.intents found in
            rw
              (
                held,
                insert_intent-held (view j db) (kept_intent si) _
                    (intent_of si.intent.id (some row) found),
              )
              (refl, refl, keys)
      ]

  no_row-update_intent :
      (id : String) (u : IntentUpdate)
      → find (λ r. str_eq r.id id) db.intents ≡ none
      → Statements.update_intent j id u db ≡ refused (Store.intent_missing id)
  unfolding Statements.update_intent
  no_row-update_intent id u e = rw (e, Statements.update_intent) refl

  row-update_intent :
      (id : String) (u : IntentUpdate) (row : IntentRow T)
      → find (λ r. str_eq r.id id) db.intents ≡ some row
      → Statements.update_intent j id u db
        ≡ wrote (record db {
          intents = update_where (λ r. str_eq r.id id) (updated_row j row u) db.intents;
        })
  unfolding Statements.update_intent
  row-update_intent id u row e = rw (e, Statements.update_intent) refl

  reasons-kept :
      JsonLaws j
      → (old : T) (o : Option (List Reason))
      → j.parse_reasons (elim o [ none ↦ old | some reasons ↦ j.reasons_text reasons ])
        ≡ get_or o (j.parse_reasons old)
  reasons-kept laws old none = refl
  reasons-kept laws old (some reasons) = laws.reasons reasons

  refunded-kept : (old : ℕ) (o : Option ℕ) → some (get_or o old) ≡ or_keep o (some old)
  refunded-kept old none = refl
  refunded-kept old (some n) = refl

  updated_row-kept :
      JsonLaws j
      → (row : IntentRow T) (u : IntentUpdate)
      → row_to_stored_intent j (updated_row j row u row) ≡ updated (row_to_stored_intent j row) u
  unfolding updated_row updated row_to_stored_intent
  updated_row-kept laws row u = λ i. record (updated (row_to_stored_intent j row) u) {
    reasons = reasons-kept laws row.reasons u.reasons i;
    refunded_minor = refunded-kept row.refunded_minor u.refunded_minor i;
  }

  pub update_intent-Agrees :
      JsonLaws j → (id : String) (u : IntentUpdate) → Agrees j (update_intent id u) db
  unfolding updated_row
  update_intent-Agrees laws id u = elim (Option-cases (find (λ r. str_eq r.id id) db.intents)) [
    | inl absent ↦
        rw
          (
            no_row-update_intent id u absent,
            update_intent-absent (view j db) id u (intent_of id none absent),
          )
          (refl, refl, keys)
    | inr (row, found) ↦
        let f = λ (r : IntentRow T). updated_row j row u r in
        rw
          (
            row-update_intent id u row found,
            update_intent-held (view j db) id u _ (intent_of id (some row) found),
          )
          (
            ap (λ is. record (view j db) { intents = is })
                (sym (
                  ap (λ m. set id m (view j db).intents) (sym (updated_row-kept laws row u))
                  ∙ table-update (λ r. r.id) (row_to_stored_intent j) f id row db.intents
                      (λ r. refl) keys.intents found)),
            refl,
            intents-Keys keys _ (
                Unique-update (λ r. r.id) (λ r. str_eq r.id id) f (λ r. refl) db.intents
                  keys.intents),
          )
  ]
