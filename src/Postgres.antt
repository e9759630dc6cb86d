-- ===== src/Postgres.antt =====
-- src/store/postgresStore.ts: a memory store that answers, and a queue of the statements that make its
-- writes durable. The tables hold an entity under its id, so they are read as a store; a JSON document
-- is the value that it was written from.
pub mod Pending
pub mod Durable
mod Tests
use agentworth.Prelude.{
  ℕ, zero, suc, String, Bool, true, false, Option, none, some, List, [], ◌∷◌, ◌++◌, ◌==◌, str_eq,
  if◌then◌else◌, find,
}
use agentworth.Prelude.Map.{get, set}
use agentworth.Types.{Mandate, Receipt}
use agentworth.Audit.{AuditEntry, MandatePatch}
use agentworth.Store.{
  Store, StoredIntent, IntentUpdate, Meta, StoreError, Stored, ok, throws, insert_mandate,
  update_mandate, revoke_mandate, insert_intent, update_intent, insert_receipt, append_audit,
  set_meta,
}
use agentworth.Store.Calls.{Call, Answer, done, failed, run_memory}

pub data EntityKind : Type 0 where
  mandate intent receipt meta : EntityKind

-- A statement of the queue. An entity that the mirror does not have is the null document.
pub data Write : Type 0 where
  put_meta : String → Meta → Write
  put_mandate : String → Option Mandate → Write
  put_intent : String → Option StoredIntent → Write
  put_receipt : Receipt → Write
  put_entry : AuditEntry → Write
  notice : EntityKind → String → Write

-- `mirror`, `queue`, and the tables of the database.
pub record System : Type 0 where
  pub mirror : Store
  pub queue : List Write
  pub durable : Store

-- `appendAuditRow`: a number that is taken must hold the same entry. `same` is the database's equality
-- of documents.
abbrev pub put_entry_in :
    (AuditEntry → AuditEntry → Bool) → AuditEntry → Option AuditEntry → Store → Option Store
put_entry_in same e none s = some (append_audit e s)
put_entry_in same e (some held) s = if same held e then some s else none

-- What a statement does to the tables; none where the database refuses it. The column of a document
-- is NOT NULL.
unfoldable pub apply : (AuditEntry → AuditEntry → Bool) → Write → Store → Option Store
apply same (put_meta k v) s = some (record s { meta = set k v s.meta })
apply same (put_mandate id none) s = none
apply same (put_mandate id (some m)) s = some (record s { mandates = set id m s.mandates })
apply same (put_intent id none) s = none
apply same (put_intent id (some si)) s = some (record s { intents = set id si s.intents })
apply same (put_receipt r) s = some (record s { receipts = set r.id r s.receipts })
apply same (put_entry e) s = put_entry_in same e (find (λ x. x.seq == e.seq) s.audit) s
apply same (notice kind id) s = some s

-- `notify`, when a listener is wired.
abbrev pub notices : Bool → EntityKind → String → List Write
notices true kind id = notice kind id ∷ []
notices false kind id = []

-- `enqueue` of a statement and its notice.
abbrev pub enqueue : List Write → System → System
enqueue ws s = record s { queue = s.queue ++ ws }

-- `persistMandate` and `persistIntent`: what the mirror has by now.
unfoldable pub persist_mandate : Bool → String → System → System
persist_mandate p id s =
    enqueue (put_mandate id (get id s.mirror.mandates) ∷ notices p mandate id) s

unfoldable pub persist_intent : Bool → String → System → System
persist_intent p id s = enqueue (put_intent id (get id s.mirror.intents) ∷ notices p intent id) s

-- A write of the mirror, and what follows it unless it throws.
abbrev pub mirrored : Stored → System → (System → System) → System × Answer
mirrored (throws e) s k = (s, failed e)
mirrored (ok st) s k = (k (record s { mirror = st }), done)

unfoldable pub run : Bool → Call → System → System × Answer
unfolding persist_mandate persist_intent
run p (Call.set_meta k v) s =
    (enqueue (put_meta k v ∷ notices p meta k) (record s { mirror = set_meta k v s.mirror }), done)
run p (Call.insert_mandate m) s = mirrored (insert_mandate m s.mirror) s (persist_mandate p m.id)
run p (Call.revoke_mandate id) s =
    (persist_mandate p id (record s { mirror = revoke_mandate id s.mirror }), done)
run p (Call.update_mandate id patch) s =
    (persist_mandate p id (record s { mirror = update_mandate id patch s.mirror }), done)
run p (Call.insert_intent si) s =
    mirrored (insert_intent si s.mirror) s (persist_intent p si.intent.id)
run p (Call.update_intent id u) s = mirrored (update_intent id u s.mirror) s (persist_intent p id)
run p (Call.insert_receipt r) s = (
  enqueue (put_receipt r ∷ notices p receipt r.id)
      (record s { mirror = insert_receipt r s.mirror }),
  done,
)
run p (Call.append_audit e) s =
    (enqueue (put_entry e ∷ []) (record s { mirror = append_audit e s.mirror }), done)
run p c s = (s, (run_memory c s.mirror).1)

-- What becomes of a statement that is sent: it may be lost, or be carried out with its answer lost.
pub data Delivery : Type 0 where
  answered lost unacknowledged : Delivery

pub data Progress : Type 0 where
  resolved again rejected waiting : Progress

module _ (same : AuditEntry → AuditEntry → Bool) where
  abbrev delivered : Delivery → List Write → Option Store → System → System × Progress
  delivered d ws none s = (s, rejected)
  delivered unacknowledged ws (some tables) s = (record s { durable = tables }, rejected)
  delivered _ ws (some tables) s = (record s { durable = tables; queue = ws }, again)

  abbrev deliver_front : Delivery → List Write → System → System × Progress
  deliver_front d [] s = (s, resolved)
  deliver_front lost (w ∷ ws) s = (s, rejected)
  deliver_front d (w ∷ ws) s = delivered d ws (apply same w s.durable) s

  -- One round of the loop of `flush`: the first statement leaves the queue once it is answered.
  unfoldable pub deliver : Delivery → System → System × Progress
  deliver d s = deliver_front d s.queue s

  -- `flush`, on what becomes of the statements that it sends.
  unfoldable pub flush : List Delivery → System → System × Progress
  flush [] s = elim s.queue [ [] ↦ (s, resolved) | w ∷ ws ↦ (s, waiting) ]
  flush (d ∷ ds) s =
      let (s', p) = deliver d s in
      elim p [
        | again ↦ flush ds s'
        | resolved ↦ (s', resolved)
        | rejected ↦ (s', rejected)
        | waiting ↦ (s', waiting)
      ]

-- `reloadEntity`, on a notice of its kind and id: the row of the tables into the mirror.
abbrev all_fields : Mandate → MandatePatch
all_fields m = record {
  label = some m.label;
  scope = some m.scope;
  currency = some m.currency;
  allowed_rails = some m.allowed_rails;
  per_tx_cap = some m.per_tx_cap;
  per_period_cap = some m.per_period_cap;
  period = some m.period;
  granted_at = some m.granted_at;
  expires_at = some m.expires_at;
  status = some m.status;
}

abbrev changes : StoredIntent → IntentUpdate
changes si = record {
  status = some si.status;
  settled_at = si.settled_at;
  receipt_id = si.receipt_id;
  reasons = some si.reasons;
  refunded_minor = si.refunded_minor;
}

-- The store after a write, or as it was when the write throws.
abbrev kept_or : Stored → Store → Store
kept_or (ok st) s = st
kept_or (throws e) s = s

abbrev mandate_in : Mandate → Option Mandate → String → Store → Store
mandate_in row none id s = kept_or (insert_mandate row s) s
mandate_in row (some held) id s = update_mandate id (all_fields row) s

abbrev intent_in : StoredIntent → Option StoredIntent → String → Store → Store
intent_in row none id s = kept_or (insert_intent row s) s
intent_in row (some held) id s = kept_or (update_intent id (changes row) s) s

unfoldable pub reload_entity : EntityKind → String → System → System
reload_entity mandate id s = elim (get id s.durable.mandates) [
  | none ↦ s
  | some row ↦ record s { mirror = mandate_in row (get id s.mirror.mandates) id s.mirror }
]
reload_entity intent id s = elim (get id s.durable.intents) [
  | none ↦ s
  | some row ↦ record s { mirror = intent_in row (get id s.mirror.intents) id s.mirror }
]
reload_entity receipt id s = elim (get id s.durable.receipts) [
  | none ↦ s
  | some row ↦ record s { mirror = insert_receipt row s.mirror }
]
reload_entity meta id s = elim (get id s.durable.meta) [
  | none ↦ s
  | some v ↦ record s { mirror = set_meta id v s.mirror }
]
