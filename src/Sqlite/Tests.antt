-- ===== src/Sqlite/Tests.antt =====
-- Runs of the store over tables of src/store/sqliteStore.ts.
use agentworth.Prelude.{◌≡◌, refl, true, none, some, List, [], ◌∷◌, map, distinct}
use agentworth.Types.{
  PayeeScope, payee_class, RailKind, card, Reason, Receipt, SettlementFinality, minor,
}
use agentworth.Audit.{Payload, AuditEntry, payment_settled, settled, genesis}
use agentworth.Store.{StoredIntent, IntentStatus, no_update}
use agentworth.Examples.{groceries, shop, new_year}
use agentworth.Sqlite.{
  Json, Db, row_to_mandate, mandate_to_row, intent_to_row, receipt_to_row, row_to_receipt,
  entry_to_row, row_to_entry,
}
use agentworth.Store.Calls.{
  Call, insert_mandate, insert_intent, update_intent, insert_receipt, append_audit, period_spend,
  get_receipt, knows_payee, load_audit, Answer, memory_answers,
}
use agentworth.Sqlite.Calls.{answers, as_kept, view, JsonLaws, Keys, FitAll}
use agentworth.Sqlite.Refines.{answers-memory_answers}
use agentworth.Store
use agentworth.Sqlite.Statements

-- A text, by what it was written from.
data Doc : Type 0 where
  scope : PayeeScope → Doc
  rails : List RailKind → Doc
  reasons : List Reason → Doc
  payload : Payload → Doc

parse_scope : Doc → PayeeScope
parse_scope (scope x) = x
parse_scope _ = payee_class ""

parse_rails : Doc → List RailKind
parse_rails (rails x) = x
parse_rails _ = []

parse_reasons : Doc → List Reason
parse_reasons (reasons x) = x
parse_reasons _ = []

parse_payload : Doc → Payload
parse_payload (payload x) = x
parse_payload _ = Payload.revoked ""

abbrev json : Json Doc
json = record {
  scope_text = scope;
  parse_scope = parse_scope;
  rails_text = rails;
  parse_rails = parse_rails;
  reasons_text = reasons;
  parse_reasons = parse_reasons;
  payload_text = payload;
  parse_payload = parse_payload;
}

json_laws : JsonLaws json
unfolding parse_scope parse_rails parse_reasons parse_payload
json_laws = record {
  scope = λ x. refl;
  rails = λ x. refl;
  reasons = λ x. refl;
  payload = λ x. refl;
}

abbrev no_rows : Db Doc
no_rows = record { meta = []; mandates = []; intents = []; receipts = []; audit = [] }

no_rows-Keys : Keys no_rows
no_rows-Keys = record { meta = tt; mandates = tt; intents = tt; receipts = tt; audit = tt }

abbrev paid : StoredIntent
paid = record {
  intent = shop;
  status = IntentStatus.settled;
  mandate_id = some "m1";
  reasons = [];
  settled_at = some new_year;
  receipt_id = some "r1";
  refunded_minor = none;
}

abbrev issued : Receipt
issued = record {
  id = "r1";
  intent_id = "p1";
  rail = card;
  amount = 8000;
  currency = "GBP";
  settled_at = new_year;
  provider_ref = "sim";
  finality = SettlementFinality.reversible;
  provider_id = some "fake-card";
}

abbrev entry : AuditEntry
entry = record {
  seq = 0;
  ts = new_year;
  type = payment_settled;
  payload = settled "p1" "r1" (minor 8000) "GBP" card;
  prev_hash = genesis;
  hash = "first";
  sig = "key";
  key_version = some "v1";
}

-- A payment of 80.00 of which 15.00 is refunded.
abbrev calls : List Call
calls =
    insert_mandate groceries
    ∷ insert_intent paid
    ∷ insert_intent paid
    ∷ insert_receipt issued
    ∷ append_audit entry
    ∷ update_intent "p1" (record no_update { refunded_minor = some 1500 })
    ∷ period_spend "m1" new_year
    ∷ get_receipt "r1"
    ∷ knows_payee "tesco"
    ∷ load_audit
    ∷ []

answers_run :
    answers json calls no_rows
    ≡ Answer.done
      ∷ Answer.done
      ∷ Answer.failed (Store.intent_exists "p1")
      ∷ Answer.done
      ∷ Answer.done
      ∷ Answer.done
      ∷ Answer.spend (record { amount = 6500; at = new_year } ∷ [])
      ∷ Answer.receipt (some (record issued { provider_id = none }))
      ∷ Answer.known true
      ∷ Answer.entries (record entry { key_version = none } ∷ [])
      ∷ []
unfolding answers Statements.insert_mandate Statements.insert_intent Statements.insert_receipt
    Statements.append_audit Statements.update_intent Statements.period_spend Statements.get_receipt
    Statements.known_payees Statements.load_audit intent_to_row Statements.get_mandate
    receipt_to_row distinct row_to_entry mandate_to_row row_to_receipt Statements.updated_row
    entry_to_row parse_payload Store.period_start row_to_mandate
answers_run = refl

calls-FitAll : FitAll json calls no_rows
unfolding Statements.insert_mandate Statements.insert_intent Statements.insert_receipt intent_to_row
    mandate_to_row
calls-FitAll = (tt, ((8000, refl), ((8000, refl), (refl, (tt, (tt, (tt, (tt, (tt, (tt, tt))))))))))

answers-memory_answers_example :
    answers json calls no_rows ≡ memory_answers (map as_kept calls) (view json no_rows)
answers-memory_answers_example =
    answers-memory_answers json json_laws calls no_rows no_rows-Keys calls-FitAll
