-- ===== src/Postgres/Tests.antt =====
-- Runs of src/store/postgresStore.ts.
use agentworth.Prelude.{◌≡◌, refl, some, false, Bool, [], ◌∷◌, str_eq, eq_refl, length}
use agentworth.Prelude.Map.{get, set}
use agentworth.Audit.{AuditEntry}
use agentworth.Store.{empty_store, insert_mandate, revoke_mandate, update_mandate, patch_mandate}
use agentworth.Store.Calls.{Call}
use agentworth.Examples.{groceries}
use agentworth.Postgres.{
  System, mandate, answered, unacknowledged, resolved, rejected, run, apply, persist_mandate,
  deliver, flush, reload_entity,
}
use agentworth.Postgres.Durable.{
  Reach, here, next, call, round, opened, all_answered, flush-durable, flush-resolves,
}

-- Equality of documents, as far as the hash tells entries apart.
abbrev same_hash : AuditEntry → AuditEntry → Bool
same_hash a b = str_eq a.hash b.hash

-- The grant is sent, and its answer is lost; then the mandate is revoked.
abbrev granted : System
granted = (run false (Call.insert_mandate groceries) (opened empty_store)).0

abbrev unsure : System
unsure = (deliver same_hash unacknowledged granted).0

abbrev withdrawn : System
withdrawn = (run false (Call.revoke_mandate "m1") unsure).0

withdrawn-Reach : Reach same_hash (opened empty_store) withdrawn
unfolding run deliver insert_mandate persist_mandate apply set get
withdrawn-Reach =
    next
      (next (next here (call (Call.insert_mandate groceries) (opened empty_store) tt))
        (round unacknowledged granted))
      (call (Call.revoke_mandate "m1") unsure refl)

withdrawn_flushed : (flush same_hash (answered ∷ answered ∷ answered ∷ []) withdrawn).1 ≡ resolved
unfolding flush run deliver insert_mandate revoke_mandate persist_mandate apply set get
withdrawn_flushed = refl

flush-durable_example :
    (flush same_hash (answered ∷ answered ∷ answered ∷ []) withdrawn).0 ≡ opened withdrawn.mirror
flush-durable_example =
    flush-durable same_hash (λ e. eq_refl e.hash) empty_store withdrawn
      (answered ∷ answered ∷ answered ∷ []) withdrawn-Reach withdrawn_flushed

flush-resolves_example :
    flush same_hash (all_answered (length withdrawn.queue)) withdrawn
    ≡ (opened withdrawn.mirror, resolved)
flush-resolves_example =
    flush-resolves same_hash (λ e. eq_refl e.hash) empty_store withdrawn withdrawn-Reach

-- The revocation of a mandate that is not held queues a statement that the database refuses for ever.
stuck :
    (flush same_hash
      (all_answered 3)
      (run false (Call.revoke_mandate "m9") (opened empty_store)).0).1
    ≡ rejected
unfolding flush run deliver revoke_mandate persist_mandate apply get
stuck = refl

-- A notice of the grant that arrives while the revocation is queued makes the mandate active again.
abbrev revoking : System
revoking =
    (run false (Call.revoke_mandate "m1")
      (opened (record empty_store { mandates = ("m1", groceries) ∷ [] }))).0

revived : get "m1" (reload_entity mandate "m1" revoking).mirror.mandates ≡ some groceries
unfolding reload_entity run revoke_mandate persist_mandate get set update_mandate patch_mandate
revived = refl
