-- ===== src/Sqlite/Refines/Mandates.antt =====
-- What src/store/sqliteStore.ts writes in its table of mandates is what the memory store writes.
use agentworth.Prelude.{
  ◌≡◌, refl, sym, ap, ◌∙◌, String, Option, none, some, str_eq, eq_iff, find, find_sound,
  Option-cases, inl, inr,
}
use agentworth.Prelude.Map.{get, set}
use agentworth.Types.{Mandate, revoked}
use agentworth.Audit.{MandatePatch}
use agentworth.Store.{patch_mandate}
use agentworth.Sqlite.{Json, MandateRow, Db, update_where, mapped, row_to_mandate, mandate_to_row}
use agentworth.Sqlite.Statements
use agentworth.Sqlite.Statements.{updated_row, or_keep}
use agentworth.Sqlite.Tables.{
  Unique-insert, Unique-update, get-table, table-insert, table-update, update-none, find-none-any,
  find-some-any,
}
use agentworth.Store.Calls.{insert_mandate, revoke_mandate, update_mandate}
use agentworth.Sqlite.Calls.{JsonLaws, Keys, view}
use agentworth.Sqlite.Refines.Memory.{
  insert_mandate-fresh, insert_mandate-held, revoke_mandate-absent, revoke_mandate-held,
  update_mandate-absent, update_mandate-held,
}
use agentworth.Sqlite.Refines.Kept.{Agrees, mandates-Keys}

module _ {T : Type 0} (j : Json T) (db : Db T) (keys : Keys db) where
  -- What the memory store has under an id, by the row that a statement finds.
  mandate_of :
      (id : String) (o : Option (MandateRow T))
      → find (λ r. str_eq r.id id) db.mandates ≡ o
      → get id (view j db).mandates ≡ mapped (row_to_mandate j) o
  mandate_of id o e =
      get-table (λ (r : MandateRow T). r.id) (row_to_mandate j) id db.mandates
      ∙ ap (mapped (row_to_mandate j)) e

  pub insert_mandate-Agrees : JsonLaws j → (m : Mandate) → Agrees j (insert_mandate m) db
  unfolding Statements.insert_mandate row_to_mandate mandate_to_row
  insert_mandate-Agrees laws m = elim (Option-cases (find (λ r. str_eq r.id m.id) db.mandates)) [
    | inl absent ↦
        let fresh =
          find-none-any (λ (r : MandateRow T). r.id) (row_to_mandate j) m.id db.mandates absent in
        let row = mandate_to_row j m.id m in
        let same : row_to_mandate j row ≡ m =
          rw (laws.scope m.scope, laws.rails m.allowed_rails) refl in
        rw (fresh, insert_mandate-fresh (view j db) m (mandate_of m.id none absent))
          (
            ap (λ ms. record (view j db) { mandates = ms })
                (sym (table-insert (λ r. r.id) (row_to_mandate j) row db.mandates fresh)
                  ∙ ap (λ n. set m.id n (view j db).mandates) same),
            refl,
            mandates-Keys keys _ (Unique-insert (λ r. r.id) db.mandates row fresh keys.mandates),
          )
    | inr (row, found) ↦
        let held =
          find-some-any (λ (r : MandateRow T). r.id) (row_to_mandate j) m.id row db.mandates
            found in
        rw (held, insert_mandate-held (view j db) m _ (mandate_of m.id (some row) found))
          (refl, refl, keys)
  ]

  pub revoke_mandate-Agrees : (id : String) → Agrees j (revoke_mandate id) db
  unfolding Statements.revoke_mandate row_to_mandate
  revoke_mandate-Agrees id =
      let f = λ (r : MandateRow T). let x : MandateRow T = record r { status = revoked } in x in
      let unique =
        Unique-update (λ r. r.id) (λ r. str_eq r.id id) f (λ r. refl) db.mandates keys.mandates in
      elim (Option-cases (find (λ r. str_eq r.id id) db.mandates)) [
        | inl absent ↦
            let fresh =
              find-none-any (λ (r : MandateRow T). r.id) (row_to_mandate j) id db.mandates absent in
            rw
              (
                update-none (λ r. r.id) f id db.mandates fresh,
                revoke_mandate-absent (view j db) id (mandate_of id none absent),
              )
              (refl, refl, keys)
        | inr (row, found) ↦
            rw (revoke_mandate-held (view j db) id _ (mandate_of id (some row) found)) (
              ap (λ ms. record (view j db) { mandates = ms })
                  (sym (
                    table-update (λ r. r.id) (row_to_mandate j) f id row db.mandates (λ r. refl)
                      keys.mandates found)),
              refl,
              mandates-Keys keys _ unique,
            )
      ]

  no_row-update_mandate :
      (id : String) (p : MandatePatch)
      → find (λ r. str_eq r.id id) db.mandates ≡ none
      → Statements.update_mandate j id p db ≡ db
  unfolding Statements.update_mandate Statements.get_mandate
  no_row-update_mandate id p e = rw (e, Statements.update_mandate, Statements.get_mandate) refl

  row-update_mandate :
      (id : String) (p : MandatePatch) (row : MandateRow T)
      → find (λ r. str_eq r.id id) db.mandates ≡ some row
      → Statements.update_mandate j id p db ≡ record db {
        mandates =
            update_where
              (λ r. str_eq r.id id)
              (λ r. mandate_to_row j r.id (patch_mandate (row_to_mandate j row) p id))
              db.mandates;
      }
  unfolding Statements.update_mandate Statements.get_mandate
  row-update_mandate id p row e = rw (e, Statements.update_mandate, Statements.get_mandate) refl

  pub update_mandate-Agrees :
      JsonLaws j → (id : String) (p : MandatePatch) → Agrees j (update_mandate id p) db
  unfolding row_to_mandate mandate_to_row patch_mandate
  update_mandate-Agrees laws id p = elim (Option-cases (find (λ r. str_eq r.id id) db.mandates)) [
    | inl absent ↦
        rw
          (
            no_row-update_mandate id p absent,
            update_mandate-absent (view j db) id p (mandate_of id none absent),
          )
          (refl, refl, keys)
    | inr (row, found) ↦
        let patched = patch_mandate (row_to_mandate j row) p id in
        let f = λ (r : MandateRow T). mandate_to_row j r.id patched in
        let same : row_to_mandate j (f row) ≡ patched = λ i. record patched {
          id =
              (eq_iff row.id id).0
                (find_sound (λ (r : MandateRow T). str_eq r.id id) db.mandates row found).1 i;
          scope = laws.scope patched.scope i;
          allowed_rails = laws.rails patched.allowed_rails i;
        } in
        rw
          (
            row-update_mandate id p row found,
            update_mandate-held (view j db) id p _ (mandate_of id (some row) found),
          )
          (
            ap (λ ms. record (view j db) { mandates = ms })
                (sym (
                  ap (λ m. set id m (view j db).mandates) (sym same)
                  ∙ table-update (λ r. r.id) (row_to_mandate j) f id row db.mandates (λ r. refl)
                      keys.mandates found)),
            refl,
            mandates-Keys keys _ (
                Unique-update (λ r. r.id) (λ r. str_eq r.id id) f (λ r. refl) db.mandates
                  keys.mandates),
          )
  ]
