-- ===== src/Sqlite/Refines/Writes.antt =====
-- What src/store/sqliteStore.ts writes in its tables of settings, receipts and audit entries is what
-- the memory store writes.
use agentworth.Prelude.{
  ◌≡◌, refl, sym, ap, ◌∙◌, String, [], ◌∷◌, ◌++◌, map, str_eq, find, Option-cases, inl, inr,
}
use agentworth.Types.{Receipt}
use agentworth.Audit.{AuditEntry}
use agentworth.Store.{
  Store, StoredIntent, IntentUpdate, Meta, Stored, ok, throws, patch_mandate, updated,
}
use agentworth.Store
use agentworth.Sqlite.{
  Json, ReceiptRow, MetaRow, Db, receipt_to_row, row_to_receipt, entry_to_row, row_to_entry,
}
use agentworth.Sqlite.Statements
use agentworth.Sqlite.Statements.{updated_row, or_keep}
use agentworth.Sqlite.Tables.{
  Unique-insert, Unique-update, table-insert, table-update, find-none-any, find-some-any,
  map-append,
}
use agentworth.Store.Calls.{set_meta, insert_receipt, append_audit}
use agentworth.Sqlite.Calls.{kept_entry, JsonLaws, Keys, Fits, view}
use agentworth.Sqlite.Refines.Kept.{
  Agrees, meta-Keys, receipts-Keys, audit-Keys, any-either, no_seq, Ascending-append,
}

module _ {T : Type 0} (j : Json T) (db : Db T) (keys : Keys db) where
  pub set_meta-Agrees : (k : String) (v : Meta) → Agrees j (set_meta k v) db
  unfolding Statements.set_meta Store.set_meta
  set_meta-Agrees k v = elim (Option-cases (find (λ r. str_eq r.key k) db.meta)) [
    | inl absent ↦
        let fresh = find-none-any (λ (r : MetaRow). r.key) (λ r. r.value) k db.meta absent in
        let row : MetaRow = record { key = k; value = v } in
        rw fresh (
          ap (λ m. record (view j db) { meta = m })
              (sym (table-insert (λ r. r.key) (λ r. r.value) row db.meta fresh)),
          refl,
          meta-Keys keys _ (Unique-insert (λ r. r.key) db.meta row fresh keys.meta),
        )
    | inr (row, found) ↦
        let held = find-some-any (λ (r : MetaRow). r.key) (λ r. r.value) k row db.meta found in
        rw held (
          ap (λ m. record (view j db) { meta = m })
              (sym (
                table-update (λ r. r.key) (λ r. r.value) (λ r. record r { value = v }) k row db.meta
                  (λ r. refl) keys.meta found)),
          refl,
          meta-Keys keys _ (
              Unique-update (λ r. r.key) _ (λ r. record r { value = v }) (λ r. refl) db.meta
                keys.meta),
        )
  ]

  pub insert_receipt-Agrees :
      (r : Receipt) → Fits (insert_receipt r) db → Agrees j (insert_receipt r) db
  unfolding Statements.insert_receipt Store.insert_receipt row_to_receipt receipt_to_row
  insert_receipt-Agrees r fits =
      let fresh = any-either (λ (q : ReceiptRow). str_eq q.id r.id) _ db.receipts fits in
      let row = receipt_to_row r in
      rw fits (
        ap (λ rs. record (view j db) { receipts = rs })
            (sym (table-insert (λ r. r.id) row_to_receipt row db.receipts fresh)),
        refl,
        receipts-Keys keys _ (Unique-insert (λ r. r.id) db.receipts row fresh keys.receipts),
      )

  pub append_audit-Agrees :
      JsonLaws j → (e : AuditEntry) → Fits (append_audit e) db → Agrees j (append_audit e) db
  unfolding Statements.append_audit row_to_entry entry_to_row
  append_audit-Agrees laws e fits =
      let row = entry_to_row j e in
      let same : row_to_entry j row ≡ kept_entry e = rw (laws.payload e.payload) refl in
      rw (no_seq e.seq db.audit fits) (
        ap (λ es. record (view j db) { audit = es })
            (map-append (row_to_entry j) db.audit (row ∷ [])
              ∙ ap (λ x. map (row_to_entry j) db.audit ++ x ∷ []) same),
        refl,
        audit-Keys keys _ (Ascending-append row db.audit fits keys.audit),
      )
