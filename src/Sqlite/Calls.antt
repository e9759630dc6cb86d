-- ===== src/Sqlite/Calls.antt =====
-- How the store over tables of src/store/sqliteStore.ts answers the calls of the contract, and the memory
-- store that tables stand for.
use agentworth.Prelude.{
  ℕ, ◌<◌, ◌≡◌, false, ◌||◌, some, none, List, [], ◌∷◌, map, str_eq, any, get_or, All,
}
use agentworth.Types.{Receipt, minor, PayeeScope, RailKind, Reason}
use agentworth.Audit.{AuditEntry, Payload}
use agentworth.Store.{Store, StoredIntent}
use agentworth.Store.Calls.{
  Call, set_meta, get_meta, insert_mandate, get_mandate, list_mandates, list_active_mandates,
  revoke_mandate, update_mandate, insert_intent, get_intent, list_pending_intents, update_intent,
  insert_receipt, get_receipt, period_spend, knows_payee, payee_settled_count, append_audit,
  load_audit, Answer, done, duplicate, failed, meta, mandate, mandates, intent, intents, receipt,
  spend, known, count, entries,
}
use agentworth.Sqlite.{
  Json, AuditRow, Db, Written, wrote, refused, duplicate_receipt, duplicate_seq, row_to_mandate,
  row_to_stored_intent, row_to_receipt, row_to_entry,
}
use agentworth.Sqlite.Tables.{Unique, table}
use agentworth.Sqlite.Statements

abbrev after_statement : {T : Type 0} → Written T → Db T → Db T × Answer
after_statement (wrote db') db = (db', done)
after_statement (refused e) db = (db, failed e)
after_statement (duplicate_receipt id) db = (db, duplicate)
after_statement (duplicate_seq n) db = (db, duplicate)

-- What a table keeps of a value: no absent refund, no provider of a receipt, no version of a key.
abbrev pub kept_intent : StoredIntent → StoredIntent
kept_intent si = record si { refunded_minor = some (get_or si.refunded_minor 0) }

abbrev pub kept_receipt : Receipt → Receipt
kept_receipt r = record r { provider_id = none }

abbrev pub kept_entry : AuditEntry → AuditEntry
kept_entry e = record e { key_version = none }

abbrev pub as_kept : Call → Call
as_kept (insert_intent si) = insert_intent (kept_intent si)
as_kept (insert_receipt r) = insert_receipt (kept_receipt r)
as_kept (append_audit e) = append_audit (kept_entry e)
as_kept c = c

-- What a JSON column holds is read back as it was.
pub record JsonLaws {T : Type 0} (j : Json T) : Type 0 where
  pub scope : (x : PayeeScope) → j.parse_scope (j.scope_text x) ≡ x
  pub rails : (x : List RailKind) → j.parse_rails (j.rails_text x) ≡ x
  pub reasons : (x : List Reason) → j.parse_reasons (j.reasons_text x) ≡ x
  pub payload : (x : Payload) → j.parse_payload (j.payload_text x) ≡ x

abbrev pub Ascending : {T : Type 0} → List (AuditRow T) → Type 0
Ascending [] = Unit
Ascending (r ∷ rows) = All (λ q. r.seq < q.seq) rows × Ascending rows

-- The primary keys of the tables; the entries of the log stand in the order of their numbers.
pub record Keys {T : Type 0} (db : Db T) : Type 0 where
  pub meta : Unique (λ r. r.key) db.meta
  pub mandates : Unique (λ r. r.id) db.mandates
  pub intents : Unique (λ r. r.id) db.intents
  pub receipts : Unique (λ r. r.id) db.receipts
  pub audit : Ascending db.audit

-- A receipt is for an intent that has none, under an id of its own; an audit entry has a number above
-- those before; an intent's amount is whole.
abbrev pub Fits : {T : Type 0} → Call → Db T → Type 0
Fits (insert_intent si) db = (n : ℕ) × (si.intent.amount ≡ minor n)
Fits (insert_receipt r) db =
    any (λ q. str_eq q.id r.id || str_eq q.intent_id r.intent_id) db.receipts ≡ false
Fits (append_audit e) db = All (λ q. q.seq < e.seq) db.audit
Fits _ db = Unit

module _ {T : Type 0} (j : Json T) where
  abbrev pub run_sqlite : Call → Db T → Db T × Answer
  run_sqlite (set_meta k v) db = (Statements.set_meta k v db, done)
  run_sqlite (get_meta k) db = (db, meta (Statements.get_meta k db))
  run_sqlite (insert_mandate m) db = after_statement (Statements.insert_mandate j m db) db
  run_sqlite (get_mandate id) db = (db, mandate (Statements.get_mandate j id db))
  run_sqlite list_mandates db = (db, mandates (Statements.list_mandates j db))
  run_sqlite (list_active_mandates now) db =
      (db, mandates (Statements.list_active_mandates j now db))
  run_sqlite (revoke_mandate id) db = (Statements.revoke_mandate id db, done)
  run_sqlite (update_mandate id p) db = (Statements.update_mandate j id p db, done)
  run_sqlite (insert_intent si) db = after_statement (Statements.insert_intent j si db) db
  run_sqlite (get_intent id) db = (db, intent (Statements.get_intent j id db))
  run_sqlite list_pending_intents db = (db, intents (Statements.list_pending_intents j db))
  run_sqlite (update_intent id u) db = after_statement (Statements.update_intent j id u db) db
  run_sqlite (insert_receipt r) db = after_statement (Statements.insert_receipt r db) db
  run_sqlite (get_receipt id) db = (db, receipt (Statements.get_receipt id db))
  run_sqlite (period_spend id now) db = (db, spend (Statements.period_spend j id now db))
  run_sqlite (knows_payee p) db = (db, known (any (λ q. str_eq q p) (Statements.known_payees db)))
  run_sqlite (payee_settled_count p) db = (db, count (Statements.payee_settled_count p db))
  run_sqlite (append_audit e) db = after_statement (Statements.append_audit j e db) db
  run_sqlite load_audit db = (db, entries (Statements.load_audit j db))

  -- The memory store that the tables stand for.
  abbrev pub view : Db T → Store
  view db = record {
    mandates = table (λ r. r.id) (row_to_mandate j) db.mandates;
    intents = table (λ r. r.id) (row_to_stored_intent j) db.intents;
    receipts = table (λ r. r.id) row_to_receipt db.receipts;
    audit = map (row_to_entry j) db.audit;
    meta = table (λ r. r.key) (λ r. r.value) db.meta;
  }

  -- The answers to a series of calls.
  unfoldable pub answers : List Call → Db T → List Answer
  answers [] db = []
  answers (c ∷ cs) db = let (db', a) = run_sqlite c db in a ∷ answers cs db'

  abbrev pub FitAll : List Call → Db T → Type 0
  FitAll [] db = Unit
  FitAll (c ∷ cs) db = Fits c db × FitAll cs (run_sqlite c db).0
