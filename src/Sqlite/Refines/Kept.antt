-- ===== src/Sqlite/Refines/Kept.antt =====
-- What src/store/sqliteStore.ts keeps of its tables when it writes one of them.
use agentworth.Prelude.{
  ℕ, ◌<◌, ◌≡◌, refl, Bool, false, ◌||◌, List, [], ◌∷◌, ◌++◌, any, arith, All, All-append, ◌==◌,
}
use agentworth.Sqlite.{Json, MandateRow, IntentRow, AuditRow, ReceiptRow, MetaRow, Db}
use agentworth.Sqlite.Tables.{Unique}
use agentworth.Store.Calls.{Call, run_memory}
use agentworth.Sqlite.Calls.{run_sqlite, as_kept, Keys, Ascending, view}

-- A call does to the tables what it does to the store that they stand for, and is answered alike.
abbrev pub Agrees : {T : Type 0} → Json T → Call → Db T → Type 0
Agrees j c db =
    (view j (run_sqlite j c db).0 ≡ (run_memory (as_kept c) (view j db)).0)
    × ((run_sqlite j c db).1 ≡ (run_memory (as_kept c) (view j db)).1)
    × Keys (run_sqlite j c db).0

module _ {T : Type 0} {db : Db T} (k : Keys db) where
  pub meta-Keys :
      (rows : List MetaRow)
      → Unique (λ (r : MetaRow). r.key) rows
      → Keys (record db { meta = rows })
  meta-Keys rows u = record {
    meta = u;
    mandates = k.mandates;
    intents = k.intents;
    receipts = k.receipts;
    audit = k.audit;
  }

  pub mandates-Keys :
      (rows : List (MandateRow T))
      → Unique (λ (r : MandateRow T). r.id) rows
      → Keys (record db { mandates = rows })
  mandates-Keys rows u = record {
    meta = k.meta;
    mandates = u;
    intents = k.intents;
    receipts = k.receipts;
    audit = k.audit;
  }

  pub intents-Keys :
      (rows : List (IntentRow T))
      → Unique (λ (r : IntentRow T). r.id) rows
      → Keys (record db { intents = rows })
  intents-Keys rows u = record {
    meta = k.meta;
    mandates = k.mandates;
    intents = u;
    receipts = k.receipts;
    audit = k.audit;
  }

  pub receipts-Keys :
      (rows : List ReceiptRow)
      → Unique (λ (r : ReceiptRow). r.id) rows
      → Keys (record db { receipts = rows })
  receipts-Keys rows u = record {
    meta = k.meta;
    mandates = k.mandates;
    intents = k.intents;
    receipts = u;
    audit = k.audit;
  }

  pub audit-Keys : (rows : List (AuditRow T)) → Ascending rows → Keys (record db { audit = rows })
  audit-Keys rows u = record {
    meta = k.meta;
    mandates = k.mandates;
    intents = k.intents;
    receipts = k.receipts;
    audit = u;
  }

pub any-either :
    {A : Type 0} (p q : A → Bool) (xs : List A)
    → any (λ x. p x || q x) xs ≡ false
    → any p xs ≡ false
any-either p q [] h = refl
any-either p q (x ∷ xs) h = ground (arith, any-either p q xs)

pub no_seq :
    {T : Type 0} (n : ℕ) (rows : List (AuditRow T))
    → All (λ q. q.seq < n) rows
    → any (λ q. q.seq == n) rows ≡ false
no_seq n [] h = refl
no_seq n (r ∷ rows) h = ground (arith, h.0, no_seq n rows h.1)

pub Ascending-append :
    {T : Type 0} (row : AuditRow T) (rows : List (AuditRow T))
    → All (λ q. q.seq < row.seq) rows
    → Ascending rows
    → Ascending (rows ++ row ∷ [])
Ascending-append row [] h a = (tt, tt)
Ascending-append row (r ∷ rows) h a = (
  All-append (λ q. r.seq < q.seq) rows (row ∷ []) a.0 (h.0, tt),
  Ascending-append row rows h.1 a.1,
)
