-- ===== src/Sqlite/Refines.antt =====
-- The store over tables of src/store/sqliteStore.ts does what the memory store does.
mod Memory
mod Kept
mod Mandates
mod Intents
mod Writes
mod Reads
use agentworth.Prelude.{◌≡◌, refl, sym, ap, ◌∙◌, List, [], ◌∷◌, map}
use agentworth.Sqlite.{Json, Db}
use agentworth.Store.Calls.{
  Call, set_meta, get_meta, insert_mandate, get_mandate, list_mandates, list_active_mandates,
  revoke_mandate, update_mandate, insert_intent, get_intent, list_pending_intents, update_intent,
  insert_receipt, get_receipt, period_spend, knows_payee, payee_settled_count, append_audit,
  load_audit, Answer, run_memory, memory_answers,
}
use agentworth.Sqlite.Calls.{run_sqlite, answers, as_kept, JsonLaws, Keys, Fits, FitAll, view}
use agentworth.Sqlite.Refines.Kept.{Agrees}
use agentworth.Sqlite.Refines.Mandates.{
  insert_mandate-Agrees, revoke_mandate-Agrees, update_mandate-Agrees,
}
use agentworth.Sqlite.Refines.Intents.{insert_intent-Agrees, update_intent-Agrees}
use agentworth.Sqlite.Refines.Writes.{set_meta-Agrees, insert_receipt-Agrees, append_audit-Agrees}
use agentworth.Sqlite.Refines.Reads.{
  get_meta-view, get_mandate-view, get_intent-view, get_receipt-view, list_mandates-view,
  list_active_mandates-view, list_pending_intents-view, payee_settled_count-view, known_payees-view,
  period_spend-view, load_audit-view,
}

module _ {T : Type 0} (j : Json T) (laws : JsonLaws j) where
  -- A call is answered as the memory store answers it, and leaves the tables that stand for its store.
  call-Agrees : (c : Call) (db : Db T) → Keys db → Fits c db → Agrees j c db
  call-Agrees (set_meta k v) db keys fits = set_meta-Agrees j db keys k v
  call-Agrees (insert_mandate m) db keys fits = insert_mandate-Agrees j db keys laws m
  call-Agrees (revoke_mandate id) db keys fits = revoke_mandate-Agrees j db keys id
  call-Agrees (update_mandate id p) db keys fits = update_mandate-Agrees j db keys laws id p
  call-Agrees (insert_intent si) db keys fits = insert_intent-Agrees j db keys laws si
  call-Agrees (update_intent id u) db keys fits = update_intent-Agrees j db keys laws id u
  call-Agrees (insert_receipt r) db keys fits = insert_receipt-Agrees j db keys r fits
  call-Agrees (append_audit e) db keys fits = append_audit-Agrees j db keys laws e fits
  call-Agrees (get_meta k) db keys fits = (refl, ap Answer.meta (get_meta-view j db k), keys)
  call-Agrees (get_mandate id) db keys fits =
      (refl, ap Answer.mandate (get_mandate-view j db id), keys)
  call-Agrees list_mandates db keys fits =
      (refl, ap Answer.mandates (list_mandates-view j db), keys)
  call-Agrees (list_active_mandates now) db keys fits =
      (refl, ap Answer.mandates (list_active_mandates-view j db now), keys)
  call-Agrees (get_intent id) db keys fits =
      (refl, ap Answer.intent (get_intent-view j db id), keys)
  call-Agrees list_pending_intents db keys fits =
      (refl, ap Answer.intents (list_pending_intents-view j db), keys)
  call-Agrees (get_receipt id) db keys fits =
      (refl, ap Answer.receipt (get_receipt-view j db id), keys)
  call-Agrees (period_spend id now) db keys fits =
      (refl, ap Answer.spend (period_spend-view j db id now), keys)
  call-Agrees (knows_payee p) db keys fits =
      (refl, ap Answer.known (known_payees-view j db p), keys)
  call-Agrees (payee_settled_count p) db keys fits =
      (refl, ap Answer.count (payee_settled_count-view j db p), keys)
  call-Agrees load_audit db keys fits =
      (refl, ap Answer.entries (load_audit-view j db keys.audit), keys)

  -- Whatever is called, in whatever order, the store over tables answers as the memory store that the
  -- tables stand for: an absent refund reads as none refunded, and a receipt's provider and an entry's
  -- key version are not kept. The keys of the tables hold at first; each receipt has a new id and an
  -- intent without one, each audit entry a number above those before, each intent a whole amount; what
  -- JSON writes it reads back.
  pub answers-memory_answers :
      (cs : List Call) (db : Db T)
      → Keys db
      → FitAll j cs db
      → answers j cs db ≡ memory_answers (map as_kept cs) (view j db)
  unfolding answers memory_answers
  answers-memory_answers [] db keys fits = refl
  answers-memory_answers (c ∷ cs) db keys fits =
      let (stores, same, kept) = call-Agrees c db keys fits.0 in
      let rest = answers-memory_answers cs (run_sqlite j c db).0 kept fits.1 in
      let moved = ap (memory_answers (map as_kept cs)) stores in λ i. same i ∷ (rest ∙ moved) i
