-- ===== src/Store/Calls.antt =====
-- The calls of the contract of src/core/store.ts, and how src/store/memoryStore.ts answers them.
use agentworth.Prelude.{ℕ, String, Bool, Option, List, [], ◌∷◌}
use agentworth.Types.{Mandate, PriorSpend, Receipt}
use agentworth.Audit.{AuditEntry, MandatePatch}
use agentworth.Store.{Store, StoredIntent, IntentUpdate, Meta, StoreError, Stored, ok, throws}
use agentworth.Store

pub data Call : Type 0 where
  set_meta : String → Meta → Call
  get_meta : String → Call
  insert_mandate : Mandate → Call
  get_mandate : String → Call
  list_mandates : Call
  list_active_mandates : ℕ → Call
  revoke_mandate : String → Call
  update_mandate : String → MandatePatch → Call
  insert_intent : StoredIntent → Call
  get_intent : String → Call
  list_pending_intents : Call
  update_intent : String → IntentUpdate → Call
  insert_receipt : Receipt → Call
  get_receipt : String → Call
  period_spend : String → ℕ → Call
  knows_payee : String → Call
  payee_settled_count : String → Call
  append_audit : AuditEntry → Call
  load_audit : Call

pub data Answer : Type 0 where
  done duplicate : Answer
  failed : StoreError → Answer
  meta : Option Meta → Answer
  mandate : Option Mandate → Answer
  mandates : List Mandate → Answer
  intent : Option StoredIntent → Answer
  intents : List StoredIntent → Answer
  receipt : Option Receipt → Answer
  spend : List PriorSpend → Answer
  known : Bool → Answer
  count : ℕ → Answer
  entries : List AuditEntry → Answer

abbrev after : Stored → Store → Store × Answer
after (ok s') s = (s', done)
after (throws e) s = (s, failed e)

abbrev pub run_memory : Call → Store → Store × Answer
run_memory (set_meta k v) s = (Store.set_meta k v s, done)
run_memory (get_meta k) s = (s, meta (Store.get_meta k s))
run_memory (insert_mandate m) s = after (Store.insert_mandate m s) s
run_memory (get_mandate id) s = (s, mandate (Store.get_mandate id s))
run_memory list_mandates s = (s, mandates (Store.list_mandates s))
run_memory (list_active_mandates now) s = (s, mandates (Store.list_active_mandates now s))
run_memory (revoke_mandate id) s = (Store.revoke_mandate id s, done)
run_memory (update_mandate id p) s = (Store.update_mandate id p s, done)
run_memory (insert_intent si) s = after (Store.insert_intent si s) s
run_memory (get_intent id) s = (s, intent (Store.get_intent id s))
run_memory list_pending_intents s = (s, intents (Store.list_pending_intents s))
run_memory (update_intent id u) s = after (Store.update_intent id u s) s
run_memory (insert_receipt r) s = (Store.insert_receipt r s, done)
run_memory (get_receipt id) s = (s, receipt (Store.get_receipt id s))
run_memory (period_spend id now) s = (s, spend (Store.period_spend id now s))
run_memory (knows_payee p) s = (s, known (Store.is_known_payee s p))
run_memory (payee_settled_count p) s = (s, count (Store.payee_settled_count s p))
run_memory (append_audit e) s = (Store.append_audit e s, done)
run_memory load_audit s = (s, entries s.audit)

unfoldable pub memory_answers : List Call → Store → List Answer
memory_answers [] s = []
memory_answers (c ∷ cs) s = let (s', a) = run_memory c s in a ∷ memory_answers cs s'
