-- ===== src/Sqlite.antt =====
-- src/store/sqliteStore.ts: the store as tables. A table is its rows in the order of insertion, which is
-- the order in which a statement without ORDER BY reads them; a statement that breaks a key throws and
-- changes nothing. JSON texts are written and read by an argument; a column that holds a word of a
-- union type is of that type, and an amount that is not a whole number is kept as it is.
pub mod Tables
pub mod Statements
pub mod Calls
pub mod Refines
mod Tests
use agentworth.Prelude.{ℕ, String, Bool, Option, none, some, List, map, if◌then◌else◌, get_or}
use agentworth.Types.{
  Mandate, MandateStatus, PayeeScope, RailKind, Period, Amount, Reason, SettlementFinality, Receipt,
}
use agentworth.Audit.{AuditEntry, AuditEventType, Payload}
use agentworth.Store.{IntentStatus, StoredIntent, Meta, StoreError}

-- `JSON.stringify` and `JSON.parse` at the types of the JSON columns.
pub record Json (T : Type 0) : Type 0 where
  pub scope_text : PayeeScope → T
  pub parse_scope : T → PayeeScope
  pub rails_text : List RailKind → T
  pub parse_rails : T → List RailKind
  pub reasons_text : List Reason → T
  pub parse_reasons : T → List Reason
  pub payload_text : Payload → T
  pub parse_payload : T → Payload

pub record MandateRow (T : Type 0) : Type 0 where
  pub id : String
  pub label : String
  pub scope : T
  pub currency : String
  pub allowed_rails : T
  pub per_tx_cap : ℕ
  pub per_period_cap : ℕ
  pub period : Period
  pub granted_at : ℕ
  pub expires_at : ℕ
  pub status : MandateStatus

pub record IntentRow (T : Type 0) : Type 0 where
  pub id : String
  pub payee : String
  pub payee_class : String
  pub amount : Amount
  pub currency : String
  pub rail : RailKind
  pub rationale : String
  pub created_at : ℕ
  pub status : IntentStatus
  pub mandate_id : Option String
  pub reasons : T
  pub settled_at : Option ℕ
  pub receipt_id : Option String
  pub refunded_minor : ℕ

pub record ReceiptRow : Type 0 where
  pub id : String
  pub intent_id : String
  pub rail : RailKind
  pub amount : ℕ
  pub currency : String
  pub settled_at : ℕ
  pub provider_ref : String
  pub finality : SettlementFinality

pub record AuditRow (T : Type 0) : Type 0 where
  pub seq : ℕ
  pub ts : ℕ
  pub type : AuditEventType
  pub payload : T
  pub prev_hash : String
  pub hash : String
  pub sig : String

pub record MetaRow : Type 0 where
  pub key : String
  pub value : Meta

pub record Db (T : Type 0) : Type 0 where
  pub meta : List MetaRow
  pub mandates : List (MandateRow T)
  pub intents : List (IntentRow T)
  pub receipts : List ReceiptRow
  pub audit : List (AuditRow T)

-- What a statement does: the tables after it, or an exception; the keys that it may break are those
-- of receipts and audit entries beside those that the memory store has.
pub data Written (T : Type 0) : Type 0 where
  wrote : Db T → Written T
  refused : StoreError → Written T
  duplicate_receipt : String → Written T
  duplicate_seq : ℕ → Written T

-- `r ? f(r) : undefined`
abbrev pub mapped : {A B : Type 0} → (A → B) → Option A → Option B
mapped f none = none
mapped f (some a) = some (f a)

-- `UPDATE ... SET ... WHERE p`
abbrev pub update_where : {A : Type 0} → (A → Bool) → (A → A) → List A → List A
update_where p f rows = map (λ r. if p r then f r else r) rows

module _ {T : Type 0} (j : Json T) where
  unfoldable pub row_to_mandate : MandateRow T → Mandate
  row_to_mandate r = record {
    id = r.id;
    label = r.label;
    scope = j.parse_scope r.scope;
    currency = r.currency;
    allowed_rails = j.parse_rails r.allowed_rails;
    per_tx_cap = r.per_tx_cap;
    per_period_cap = r.per_period_cap;
    period = r.period;
    granted_at = r.granted_at;
    expires_at = r.expires_at;
    status = r.status;
  }

  -- The values that `insertMandate` and `updateMandate` bind, the id apart.
  unfoldable pub mandate_to_row : String → Mandate → MandateRow T
  mandate_to_row id m = record {
    id = id;
    label = m.label;
    scope = j.scope_text m.scope;
    currency = m.currency;
    allowed_rails = j.rails_text m.allowed_rails;
    per_tx_cap = m.per_tx_cap;
    per_period_cap = m.per_period_cap;
    period = m.period;
    granted_at = m.granted_at;
    expires_at = m.expires_at;
    status = m.status;
  }

  unfoldable pub row_to_stored_intent : IntentRow T → StoredIntent
  row_to_stored_intent r = record {
    intent = record {
      id = r.id;
      payee = r.payee;
      payee_class = r.payee_class;
      amount = r.amount;
      currency = r.currency;
      rail = r.rail;
      rationale = r.rationale;
      created_at = r.created_at;
    };
    status = r.status;
    mandate_id = r.mandate_id;
    reasons = j.parse_reasons r.reasons;
    settled_at = r.settled_at;
    receipt_id = r.receipt_id;
    refunded_minor = some r.refunded_minor;
  }

  unfoldable pub intent_to_row : StoredIntent → IntentRow T
  intent_to_row s = record {
    id = s.intent.id;
    payee = s.intent.payee;
    payee_class = s.intent.payee_class;
    amount = s.intent.amount;
    currency = s.intent.currency;
    rail = s.intent.rail;
    rationale = s.intent.rationale;
    created_at = s.intent.created_at;
    status = s.status;
    mandate_id = s.mandate_id;
    reasons = j.reasons_text s.reasons;
    settled_at = s.settled_at;
    receipt_id = s.receipt_id;
    refunded_minor = get_or s.refunded_minor 0;
  }

  unfoldable pub entry_to_row : AuditEntry → AuditRow T
  entry_to_row e = record {
    seq = e.seq;
    ts = e.ts;
    type = e.type;
    payload = j.payload_text e.payload;
    prev_hash = e.prev_hash;
    hash = e.hash;
    sig = e.sig;
  }

  unfoldable pub row_to_entry : AuditRow T → AuditEntry
  row_to_entry r = record {
    seq = r.seq;
    ts = r.ts;
    type = r.type;
    payload = j.parse_payload r.payload;
    prev_hash = r.prev_hash;
    hash = r.hash;
    sig = r.sig;
    key_version = none;
  }

-- A receipt's `providerId` and an entry's `keyVersion` have no column.
unfoldable pub receipt_to_row : Receipt → ReceiptRow
receipt_to_row r = record {
  id = r.id;
  intent_id = r.intent_id;
  rail = r.rail;
  amount = r.amount;
  currency = r.currency;
  settled_at = r.settled_at;
  provider_ref = r.provider_ref;
  finality = r.finality;
}

unfoldable pub row_to_receipt : ReceiptRow → Receipt
row_to_receipt r = record {
  id = r.id;
  intent_id = r.intent_id;
  rail = r.rail;
  amount = r.amount;
  currency = r.currency;
  settled_at = r.settled_at;
  provider_ref = r.provider_ref;
  finality = r.finality;
  provider_id = none;
}
