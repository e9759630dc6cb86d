-- ===== src/Sqlite/Statements.antt =====
-- src/store/sqliteStore.ts: the statements of the store's operations.
use agentworth.Prelude.{
  ℕ, String, Bool, false, ◌&&◌, ◌||◌, Option, none, some, List, [], ◌∷◌, ◌++◌, map, leb, ltb, ◌==◌,
  str_eq, if◌then◌else◌, length, filter, find, any, get_or, distinct, ◌-◌,
}
use agentworth.Types.{Mandate, revoked, PriorSpend, Receipt, minor_units}
use agentworth.Gate.{is_active}
use agentworth.Audit.{AuditEntry, MandatePatch}
use agentworth.Store.{
  is_settled, is_pending, StoredIntent, IntentUpdate, Meta, mandate_exists, intent_exists,
  intent_missing, period_start, patch_mandate, same_mandate,
}
use agentworth.Sqlite.{
  Json, IntentRow, AuditRow, Db, Written, wrote, refused, duplicate_receipt, duplicate_seq,
  update_where, mapped, row_to_mandate, mandate_to_row, row_to_stored_intent, intent_to_row,
  receipt_to_row, row_to_receipt, entry_to_row, row_to_entry,
}

unfoldable pub get_meta : {T : Type 0} → String → Db T → Option Meta
get_meta k db = mapped (λ r. r.value) (find (λ r. str_eq r.key k) db.meta)

-- `INSERT ... ON CONFLICT(key) DO UPDATE`
unfoldable pub set_meta : {T : Type 0} → String → Meta → Db T → Db T
set_meta k v db =
    if any (λ r. str_eq r.key k) db.meta
    then record db {
      meta = update_where (λ r. str_eq r.key k) (λ r. record r { value = v }) db.meta;
    }
    else record db { meta = db.meta ++ record { key = k; value = v } ∷ [] }

unfoldable pub revoke_mandate : {T : Type 0} → String → Db T → Db T
revoke_mandate id db = record db {
  mandates = update_where (λ r. str_eq r.id id) (λ r. record r { status = revoked }) db.mandates;
}

unfoldable pub insert_receipt : {T : Type 0} → Receipt → Db T → Written T
insert_receipt r db =
    if any (λ q. str_eq q.id r.id || str_eq q.intent_id r.intent_id) db.receipts
    then duplicate_receipt r.id
    else wrote (record db { receipts = db.receipts ++ receipt_to_row r ∷ [] })

unfoldable pub get_receipt : {T : Type 0} → String → Db T → Option Receipt
get_receipt id db = mapped row_to_receipt (find (λ r. str_eq r.id id) db.receipts)

unfoldable pub known_payees : {T : Type 0} → Db T → List String
known_payees db =
    distinct str_eq (map (λ r. r.payee) (filter (λ r. is_settled r.status) db.intents))

unfoldable pub payee_settled_count : {T : Type 0} → String → Db T → ℕ
payee_settled_count payee db =
    length (filter (λ r. is_settled r.status && str_eq r.payee payee) db.intents)

-- `COALESCE`-free: a null column is kept where the update has nothing.
abbrev pub or_keep : {A : Type 0} → Option A → Option A → Option A
or_keep none old = old
or_keep (some a) old = some a

-- `settled_at >= ?`, which a null column does not meet.
abbrev pub settled_since : ℕ → Option ℕ → Bool
settled_since start none = false
settled_since start (some at) = leb start at

abbrev pub spent_under : {T : Type 0} → String → ℕ → IntentRow T → Bool
spent_under id start r =
    is_settled r.status && same_mandate id r.mandate_id && settled_since start r.settled_at

-- `ORDER BY seq ASC`
unfoldable pub insert_by_seq : {T : Type 0} → AuditRow T → List (AuditRow T) → List (AuditRow T)
insert_by_seq r [] = r ∷ []
insert_by_seq r (q ∷ qs) =
    let rest = insert_by_seq r qs in if leb r.seq q.seq then r ∷ q ∷ qs else q ∷ rest

unfoldable pub order_by_seq : {T : Type 0} → List (AuditRow T) → List (AuditRow T)
order_by_seq [] = []
order_by_seq (r ∷ rs) = insert_by_seq r (order_by_seq rs)

module _ {T : Type 0} (j : Json T) where
  unfoldable pub insert_mandate : Mandate → Db T → Written T
  insert_mandate m db =
      if any (λ r. str_eq r.id m.id) db.mandates
      then refused (mandate_exists m.id)
      else wrote (record db { mandates = db.mandates ++ mandate_to_row j m.id m ∷ [] })

  unfoldable pub get_mandate : String → Db T → Option Mandate
  get_mandate id db = mapped (row_to_mandate j) (find (λ r. str_eq r.id id) db.mandates)

  unfoldable pub list_mandates : Db T → List Mandate
  list_mandates db = map (row_to_mandate j) db.mandates

  unfoldable pub list_active_mandates : ℕ → Db T → List Mandate
  list_active_mandates now db =
      map (row_to_mandate j) (filter (λ r. is_active r.status && ltb now r.expires_at) db.mandates)

  -- Every column but the id is set from the patched mandate.
  unfoldable pub update_mandate : String → MandatePatch → Db T → Db T
  unfolding get_mandate
  update_mandate id patch db = elim (get_mandate id db) [
    | none ↦ db
    | some current ↦ record db {
      mandates =
          update_where (λ r. str_eq r.id id)
            (λ r. mandate_to_row j r.id (patch_mandate current patch id)) db.mandates;
    }
  ]

  unfoldable pub insert_intent : StoredIntent → Db T → Written T
  insert_intent s db =
      if any (λ r. str_eq r.id s.intent.id) db.intents
      then refused (intent_exists s.intent.id)
      else wrote (record db { intents = db.intents ++ intent_to_row j s ∷ [] })

  unfoldable pub get_intent : String → Db T → Option StoredIntent
  get_intent id db = mapped (row_to_stored_intent j) (find (λ r. str_eq r.id id) db.intents)

  unfoldable pub list_pending_intents : Db T → List StoredIntent
  list_pending_intents db =
      map (row_to_stored_intent j) (filter (λ r. is_pending r.status) db.intents)

  -- The columns that `updateIntent` binds, from the row that it has read.
  unfoldable pub updated_row : IntentRow T → IntentUpdate → IntentRow T → IntentRow T
  updated_row current u r = record r {
    status = get_or u.status current.status;
    settled_at = or_keep u.settled_at current.settled_at;
    receipt_id = or_keep u.receipt_id current.receipt_id;
    reasons = elim u.reasons [ none ↦ current.reasons | some reasons ↦ j.reasons_text reasons ];
    refunded_minor = get_or u.refunded_minor current.refunded_minor;
  }

  unfoldable pub update_intent : String → IntentUpdate → Db T → Written T
  update_intent id u db = elim (find (λ r. str_eq r.id id) db.intents) [
    | none ↦ refused (intent_missing id)
    | some current ↦ wrote (record db {
      intents = update_where (λ r. str_eq r.id id) (updated_row current u) db.intents;
    })
  ]

  unfoldable pub period_spend : String → ℕ → Db T → List PriorSpend
  period_spend id now db = elim (get_mandate id db) [
    | none ↦ []
    | some m ↦
        map
          (λ r. record {
            amount = minor_units r.amount - r.refunded_minor;
            at = get_or r.settled_at 0;
          })
          (filter (spent_under id (period_start now m.period)) db.intents)
  ]

  unfoldable pub append_audit : AuditEntry → Db T → Written T
  append_audit e db =
      if any (λ r. r.seq == e.seq) db.audit
      then duplicate_seq e.seq
      else wrote (record db { audit = db.audit ++ entry_to_row j e ∷ [] })

  unfoldable pub load_audit : Db T → List AuditEntry
  unfolding order_by_seq insert_by_seq
  load_audit db = map (row_to_entry j) (order_by_seq db.audit)
