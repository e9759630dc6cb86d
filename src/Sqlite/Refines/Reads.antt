-- ===== src/Sqlite/Refines/Reads.antt =====
-- What the statements of src/store/sqliteStore.ts read is what the memory store reads.
use agentworth.Prelude.{
  ℕ, ◌-◌, ◌<◌, ◌≡◌, refl, sym, ap, ◌∙◌, String, Bool, true, ◌&&◌, ◌||◌, Option, none, some, List,
  [], ◌∷◌, map, str_eq, eq_iff, length, filter, any, arith, Bool-cases, inl, inr, All, distinct,
  get_or,
}
use agentworth.Prelude.Map.{values}
use agentworth.Types.{Mandate, minor_units, PriorSpend}
use agentworth.Gate.{is_live_mandate}
use agentworth.Store.{
  Store, StoredIntent, is_settled, period_start, counts_for, spend_since, prior_spend,
}
use agentworth.Store
use agentworth.Store.Payees.{is_known_payee-settled}
use agentworth.Sqlite.{
  Json, MandateRow, IntentRow, ReceiptRow, AuditRow, MetaRow, Db, row_to_mandate,
  row_to_stored_intent, row_to_receipt, row_to_entry,
}
use agentworth.Sqlite.Statements
use agentworth.Sqlite.Statements.{insert_by_seq, order_by_seq, spent_under}
use agentworth.Sqlite.Tables.{get-table, values-table, filter-map}
use agentworth.Sqlite.Calls.{Ascending, view}

length-map : {A B : Type 0} (f : A → B) (xs : List A) → length (map f xs) ≡ length xs
length-map f [] = refl
length-map f (x ∷ xs) = omega (arith, length-map f xs)

any-map :
    {A B : Type 0} (p : B → Bool) (f : A → B) (xs : List A)
    → any p (map f xs) ≡ any (λ x. p (f x)) xs
any-map p f [] = refl
any-map p f (x ∷ xs) = ground (arith, any-map p f xs)

map-map :
    {A B C : Type 0} (f : B → C) (g : A → B) (xs : List A)
    → map f (map g xs) ≡ map (λ x. f (g x)) xs
map-map f g [] = refl
map-map f g (x ∷ xs) = ap (λ zs. f (g x) ∷ zs) (map-map f g xs)

any-filter :
    {A : Type 0} (p q : A → Bool) (xs : List A) → any p (filter q xs) ≡ any (λ x. q x && p x) xs
any-filter p q [] = refl
any-filter p q (x ∷ xs) = ground (arith, any-filter p q xs)

any-held :
    (p x : String) (ys : List String)
    → any (str_eq x) ys ≡ true
    → str_eq x p ≡ true
    → any (λ q. str_eq q p) ys ≡ true
any-held p x [] h e = cc
any-held p x (y ∷ ys) h e = ground (arith, any-held p x ys, eq_iff x p, eq_iff x y, eq_iff y p)

-- `new Set` forgets no member.
any-distinct :
    (p : String) (xs : List String)
    → any (λ q. str_eq q p) (distinct str_eq xs) ≡ any (λ q. str_eq q p) xs
unfolding distinct
any-distinct p [] = refl
any-distinct p (x ∷ xs) = elim (Bool-cases (any (str_eq x) (distinct str_eq xs))) [
  | inl held ↦ rw held (
      any-distinct p xs ∙ ground (arith, any-held p x (distinct str_eq xs) held, any-distinct p xs))
  | inr fresh ↦ rw fresh (ap (λ b. str_eq x p || b) (any-distinct p xs))
]

insert_by_seq-first :
    {T : Type 0} (r : AuditRow T) (rows : List (AuditRow T))
    → All (λ q. r.seq < q.seq) rows
    → insert_by_seq r rows ≡ r ∷ rows
unfolding insert_by_seq
insert_by_seq-first r [] h = refl
insert_by_seq-first r (q ∷ rows) h = ground (arith, h.0)

order_by_seq-Ascending :
    {T : Type 0} (rows : List (AuditRow T)) → Ascending rows → order_by_seq rows ≡ rows
unfolding order_by_seq
order_by_seq-Ascending [] a = refl
order_by_seq-Ascending (r ∷ rows) a =
    ap (insert_by_seq r) (order_by_seq-Ascending rows a.1) ∙ insert_by_seq-first r rows a.0

module _ {T : Type 0} (j : Json T) (db : Db T) where
  pub get_meta-view : (k : String) → Statements.get_meta k db ≡ Store.get_meta k (view j db)
  unfolding Statements.get_meta Store.get_meta
  get_meta-view k = sym (get-table (λ (r : MetaRow). r.key) (λ r. r.value) k db.meta)

  pub get_mandate-view :
      (id : String) → Statements.get_mandate j id db ≡ Store.get_mandate id (view j db)
  unfolding Statements.get_mandate Store.get_mandate
  get_mandate-view id =
      sym (get-table (λ (r : MandateRow T). r.id) (row_to_mandate j) id db.mandates)

  pub get_intent-view :
      (id : String) → Statements.get_intent j id db ≡ Store.get_intent id (view j db)
  unfolding Statements.get_intent Store.get_intent
  get_intent-view id =
      sym (get-table (λ (r : IntentRow T). r.id) (row_to_stored_intent j) id db.intents)

  pub get_receipt-view :
      (id : String) → Statements.get_receipt id db ≡ Store.get_receipt id (view j db)
  unfolding Statements.get_receipt Store.get_receipt
  get_receipt-view id = sym (get-table (λ (r : ReceiptRow). r.id) row_to_receipt id db.receipts)

  pub list_mandates-view : Statements.list_mandates j db ≡ Store.list_mandates (view j db)
  unfolding Statements.list_mandates
  list_mandates-view =
      sym (values-table (λ (r : MandateRow T). r.id) (row_to_mandate j) db.mandates)

  pub list_active_mandates-view :
      (now : ℕ)
      → Statements.list_active_mandates j now db ≡ Store.list_active_mandates now (view j db)
  unfolding Statements.list_active_mandates Store.list_active_mandates is_live_mandate
      row_to_mandate
  list_active_mandates-view now = sym (
      ap (filter (λ m. is_live_mandate m now))
        (values-table (λ (r : MandateRow T). r.id) (row_to_mandate j) db.mandates)
      ∙ filter-map (λ m. is_live_mandate m now) (row_to_mandate j) db.mandates)

  intents_of : values (view j db).intents ≡ map (row_to_stored_intent j) db.intents
  intents_of = values-table (λ (r : IntentRow T). r.id) (row_to_stored_intent j) db.intents

  intents_where :
      (p : StoredIntent → Bool)
      → filter p (values (view j db).intents)
        ≡ map (row_to_stored_intent j) (filter (λ r. p (row_to_stored_intent j r)) db.intents)
  intents_where p = ap (filter p) intents_of ∙ filter-map p (row_to_stored_intent j) db.intents

  pub list_pending_intents-view :
      Statements.list_pending_intents j db ≡ Store.list_pending_intents (view j db)
  unfolding Statements.list_pending_intents Store.list_pending_intents row_to_stored_intent
  list_pending_intents-view = sym (intents_where (λ si. Store.is_pending si.status))

  pub payee_settled_count-view :
      (p : String) → Statements.payee_settled_count p db ≡ Store.payee_settled_count (view j db) p
  unfolding Statements.payee_settled_count Store.payee_settled_count row_to_stored_intent
  payee_settled_count-view p = sym (
      ap length (intents_where (λ si. is_settled si.status && str_eq si.intent.payee p))
      ∙ length-map (row_to_stored_intent j) _)

  pub known_payees-view :
      (p : String)
      → any (λ q. str_eq q p) (Statements.known_payees db) ≡ Store.is_known_payee (view j db) p
  unfolding Statements.known_payees row_to_stored_intent
  known_payees-view p =
      any-distinct p _
      ∙ any-map (λ q. str_eq q p) (λ (r : IntentRow T). r.payee) _
      ∙ any-filter (λ (r : IntentRow T). str_eq r.payee p) (λ r. is_settled r.status) db.intents
      ∙ sym (
          is_known_payee-settled (view j db) p
          ∙ ap (any (λ si. is_settled si.status && str_eq si.intent.payee p)) intents_of
          ∙ any-map (λ si. is_settled si.status && str_eq si.intent.payee p)
              (row_to_stored_intent j) db.intents)

  spent_since :
      (id : String) (start : ℕ)
      → map
          (λ r. record {
            amount = minor_units r.amount - r.refunded_minor;
            at = get_or r.settled_at 0;
          })
          (filter (spent_under id start) db.intents)
        ≡ spend_since id start (values (view j db).intents)
  unfolding counts_for row_to_stored_intent
  spent_since id start = sym (
      ap (map prior_spend) (intents_where (counts_for id start))
      ∙ map-map prior_spend (row_to_stored_intent j) _)

  spend_of :
      (id : String) (now : ℕ) (o : Option Mandate)
      → elim o as (λ x. List PriorSpend) [
        | none ↦ []
        | some m ↦
            map
              (λ r. record {
                amount = minor_units r.amount - r.refunded_minor;
                at = get_or r.settled_at 0;
              })
              (filter (spent_under id (period_start now m.period)) db.intents)
      ]
        ≡ elim o as (λ x. List PriorSpend) [
          | none ↦ []
          | some m ↦ spend_since id (period_start now m.period) (values (view j db).intents)
        ]
  spend_of id now none = refl
  spend_of id now (some m) = spent_since id (period_start now m.period)

  pub period_spend-view :
      (id : String) (now : ℕ)
      → Statements.period_spend j id now db ≡ Store.period_spend id now (view j db)
  unfolding Statements.period_spend Store.period_spend Store.get_mandate
  period_spend-view id now =
      spend_of id now (Statements.get_mandate j id db)
      ∙ ap
          (λ o. elim o as (λ x. List PriorSpend) [
            | none ↦ []
            | some m ↦ spend_since id (period_start now m.period) (values (view j db).intents)
          ])
          (get_mandate-view id)

  pub load_audit-view : Ascending db.audit → Statements.load_audit j db ≡ (view j db).audit
  unfolding Statements.load_audit
  load_audit-view a = ap (map (row_to_entry j)) (order_by_seq-Ascending db.audit a)
