-- ===== src/Store.antt =====
-- src/core/store.ts and src/store/memoryStore.ts: what is kept, in maps by insertion order.
pub mod Calendar
pub mod Payees
pub mod Calls
mod Tests
use agentworth.Prelude.{
  ℕ, ◌+◌, ◌-◌, ◌*◌, ◌%◌, String, Bool, true, false, ◌&&◌, Option, none, some, List, [], ◌∷◌, ◌++◌,
  map, leb, ◌==◌, str_eq, if◌then◌else◌, length, filter, any, get_or,
}
use agentworth.Prelude.Map.{Map, get, set, values}
use agentworth.Prelude.Calendar.{ms_per_day, day_of, weekday, day_of_month}
use agentworth.Types.{
  Mandate, PaymentIntent, Period, day, week, month, PriorSpend, Receipt, Reason, minor_units,
  revoked,
}
use agentworth.Gate.{is_live_mandate}
use agentworth.Audit.{AuditEntry, MandatePatch}

pub data IntentStatus : Type 0 where
  pending settled blocked failed : IntentStatus

abbrev pub is_settled : IntentStatus → Bool
is_settled settled = true
is_settled _ = false

abbrev pub is_pending : IntentStatus → Bool
is_pending pending = true
is_pending _ = false

pub record StoredIntent : Type 0 where
  pub intent : PaymentIntent
  pub status : IntentStatus
  pub mandate_id : Option String
  pub reasons : List Reason
  pub settled_at : Option ℕ
  pub receipt_id : Option String
  pub refunded_minor : Option ℕ

pub record IntentUpdate : Type 0 where
  pub status : Option IntentStatus
  pub settled_at : Option ℕ
  pub receipt_id : Option String
  pub reasons : Option (List Reason)
  pub refunded_minor : Option ℕ

abbrev pub no_update : IntentUpdate
no_update = record {
  status = none;
  settled_at = none;
  receipt_id = none;
  reasons = none;
  refunded_minor = none;
}

-- A value of the operator's meta table: a text, or the decimal text of a counter.
pub data Meta : Type 0 where
  text : String → Meta
  counter : ℕ → Meta

pub record Store : Type 0 where
  pub mandates : Map Mandate
  pub intents : Map StoredIntent
  pub receipts : Map Receipt
  pub audit : List AuditEntry
  pub meta : Map Meta

-- `periodStart`
unfoldable pub period_start : ℕ → Period → ℕ
period_start now day = day_of now * ms_per_day
period_start now month = (day_of now - day_of_month now) * ms_per_day
period_start now week = (day_of now - (weekday now + 6) % 7) * ms_per_day

-- What a call does to the store: the new store, or an exception that leaves it as it was.
pub data StoreError : Type 0 where
  mandate_exists intent_exists intent_missing : String → StoreError

pub data Stored : Type 0 where
  ok : Store → Stored
  throws : StoreError → Stored

abbrev pub empty_store : Store
empty_store = record { mandates = []; intents = []; receipts = []; audit = []; meta = [] }

unfoldable pub set_meta : String → Meta → Store → Store
set_meta k v s = record s { meta = set k v s.meta }

unfoldable pub get_meta : String → Store → Option Meta
get_meta k s = get k s.meta

unfoldable pub insert_mandate : Mandate → Store → Stored
insert_mandate m s = elim (get m.id s.mandates) [
  | some _ ↦ throws (mandate_exists m.id)
  | none ↦ ok (record s { mandates = set m.id m s.mandates })
]

unfoldable pub get_mandate : String → Store → Option Mandate
get_mandate id s = get id s.mandates

abbrev pub list_mandates : Store → List Mandate
list_mandates s = values s.mandates

unfoldable pub list_active_mandates : ℕ → Store → List Mandate
list_active_mandates now s = filter (λ m. is_live_mandate m now) (values s.mandates)

unfoldable pub revoke_mandate : String → Store → Store
revoke_mandate id s = elim (get id s.mandates) [
  | none ↦ s
  | some m ↦ record s { mandates = set id (record m { status = revoked }) s.mandates }
]

-- `{ ...m, ...patch, id }`
unfoldable pub patch_mandate : Mandate → MandatePatch → String → Mandate
patch_mandate m p id = record {
  id = id;
  label = get_or p.label m.label;
  scope = get_or p.scope m.scope;
  currency = get_or p.currency m.currency;
  allowed_rails = get_or p.allowed_rails m.allowed_rails;
  per_tx_cap = get_or p.per_tx_cap m.per_tx_cap;
  per_period_cap = get_or p.per_period_cap m.per_period_cap;
  period = get_or p.period m.period;
  granted_at = get_or p.granted_at m.granted_at;
  expires_at = get_or p.expires_at m.expires_at;
  status = get_or p.status m.status;
}

unfoldable pub update_mandate : String → MandatePatch → Store → Store
unfolding patch_mandate
update_mandate id p s = elim (get id s.mandates) [
  | none ↦ s
  | some m ↦ record s { mandates = set id (patch_mandate m p id) s.mandates }
]

unfoldable pub insert_intent : StoredIntent → Store → Stored
insert_intent si s = elim (get si.intent.id s.intents) [
  | some _ ↦ throws (intent_exists si.intent.id)
  | none ↦ ok (record s { intents = set si.intent.id si s.intents })
]

unfoldable pub get_intent : String → Store → Option StoredIntent
get_intent id s = get id s.intents

unfoldable pub list_pending_intents : Store → List StoredIntent
list_pending_intents s = filter (λ si. is_pending si.status) (values s.intents)

abbrev or_keep : Option ℕ → Option ℕ → Option ℕ
or_keep none old = old
or_keep (some n) old = some n

abbrev or_keep_id : Option String → Option String → Option String
or_keep_id none old = old
or_keep_id (some r) old = some r

unfoldable pub updated : StoredIntent → IntentUpdate → StoredIntent
updated si u = record {
  intent = si.intent;
  status = get_or u.status si.status;
  mandate_id = si.mandate_id;
  reasons = get_or u.reasons si.reasons;
  settled_at = or_keep u.settled_at si.settled_at;
  receipt_id = or_keep_id u.receipt_id si.receipt_id;
  refunded_minor = or_keep u.refunded_minor si.refunded_minor;
}

unfoldable pub update_intent : String → IntentUpdate → Store → Stored
unfolding updated
update_intent id u s = elim (get id s.intents) [
  | none ↦ throws (intent_missing id)
  | some si ↦ ok (record s { intents = set id (updated si u) s.intents })
]

unfoldable pub insert_receipt : Receipt → Store → Store
insert_receipt r s = record s { receipts = set r.id r s.receipts }

unfoldable pub get_receipt : String → Store → Option Receipt
get_receipt id s = get id s.receipts

abbrev pub same_mandate : String → Option String → Bool
same_mandate id none = false
same_mandate id (some m) = str_eq m id

abbrev settled_since : ℕ → Option ℕ → Bool
settled_since start none = false
settled_since start (some at) = leb start at

-- The intents that count against a mandate's period.
unfoldable pub counts_for : String → ℕ → StoredIntent → Bool
counts_for id start si =
    is_settled si.status && same_mandate id si.mandate_id && settled_since start si.settled_at

-- What is left of a payment after refunds.
abbrev pub net : StoredIntent → ℕ
net si = minor_units si.intent.amount - get_or si.refunded_minor 0

abbrev pub prior_spend : StoredIntent → PriorSpend
prior_spend si = record { amount = net si; at = get_or si.settled_at 0 }

abbrev pub spend_since : String → ℕ → List StoredIntent → List PriorSpend
spend_since id start intents = map prior_spend (filter (counts_for id start) intents)

unfoldable pub period_spend : String → ℕ → Store → List PriorSpend
period_spend id now s = elim (get id s.mandates) [
  | none ↦ []
  | some m ↦ spend_since id (period_start now m.period) (values s.intents)
]

abbrev add_to_set : String → List String → List String
add_to_set p ps = if any (λ q. str_eq q p) ps then ps else ps ++ p ∷ []

settled_payees : List StoredIntent → List String → List String
settled_payees [] seen = seen
settled_payees (si ∷ rest) seen =
    settled_payees rest (if is_settled si.status then add_to_set si.intent.payee seen else seen)

-- `knownPayees`: the payees of settled payments, each once, in the order of the first payment.
unfoldable pub known_payees : Store → List String
unfolding settled_payees
known_payees s = settled_payees (values s.intents) []

-- `knownPayees().has(payee)`
unfoldable pub is_known_payee : Store → String → Bool
is_known_payee s payee = any (λ q. str_eq q payee) (known_payees s)

unfoldable pub payee_settled_count : Store → String → ℕ
payee_settled_count s payee =
    length (filter (λ si. is_settled si.status && str_eq si.intent.payee payee) (values s.intents))

abbrev pub append_audit : AuditEntry → Store → Store
append_audit e s = record s { audit = s.audit ++ e ∷ [] }
