-- ===== src/Ingress/Idempotency.antt =====
-- src/ingress/idempotency.ts: the intent that an idempotency key produced, kept in the store's meta.
use Prim.Native.String.{◌++◌ as text_append}
use agentworth.Prelude.{ℕ, String, Option, none, some, List, str_eq, if◌then◌else◌}
use agentworth.Types.{Reason}
use agentworth.Store.{
  IntentStatus, pending, settled, blocked, failed, StoredIntent, Store, Meta, text, counter,
  get_meta, set_meta, get_intent,
}

abbrev pub idempotency_meta_key : String → String
idempotency_meta_key key = text_append "idem:" key

abbrev pub http_status_for_intent_status : IntentStatus → ℕ
http_status_for_intent_status settled = 200
http_status_for_intent_status pending = 202
http_status_for_intent_status failed = 502
http_status_for_intent_status blocked = 403

-- `verified` is always null and `idempotentReplay` always true.
pub record IdempotentReplay : Type 0 where
  pub status : ℕ
  pub intent_id : String
  pub outcome : IntentStatus
  pub reasons : List Reason
  pub receipt_id : Option String

abbrev pub replay_of : Option StoredIntent → Option IdempotentReplay
replay_of none = none
replay_of (some si) = some (record {
  status = http_status_for_intent_status si.status;
  intent_id = si.intent.id;
  outcome = si.status;
  reasons = si.reasons;
  receipt_id = si.receipt_id;
})

abbrev pub replay_prior : Store → Option Meta → Option IdempotentReplay
replay_prior store none = none
replay_prior store (some (counter n)) = none
replay_prior store (some (text id)) =
    let found = replay_of (get_intent id store) in if str_eq id "" then none else found

unfoldable pub replay_if_seen : Store → String → Option IdempotentReplay
replay_if_seen store key = replay_prior store (get_meta (idempotency_meta_key key) store)

unfoldable pub remember_key : Store → String → String → Store
remember_key store key intent_id = set_meta (idempotency_meta_key key) (text intent_id) store
