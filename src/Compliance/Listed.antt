-- ===== src/Compliance/Listed.antt =====
-- What the sanctions list of src/compliance/sanctions.ts keeps from being paid under src/core/gate.ts.
use agentworth.Prelude.{
  ◌≡◌, refl, sym, ap, ◌∙◌, subst, String, true, Option, List, [], ◌∷◌, ◌⊎◌, inl, inr, In, is_some,
  arith, eq_refl,
}
use agentworth.Prelude.Map.{Map, get, set, get-set}
use agentworth.Types.{PaymentIntent, block, GateContext}
use agentworth.Gate.{evaluate_gate}
use agentworth.Gate.Floor.{deny_rule-block}
use agentworth.Compliance.{
  SanctionEntry, Index, set_all, names_of, add_entry, index_entries, hit_of, verdict_of,
  empty_index, list_screener, is_refused, deny_rule_from_compliance,
}

-- An entry lists a payee under one of its texts.
pub data Lists (norm : String → String) (e : SanctionEntry) (payee : String) : Type 0 where
  by_id : (t : String) → In t e.payees → norm t ≡ norm payee → Lists norm e payee
  by_alias : (t : String) → In t e.aliases → norm t ≡ norm payee → Lists norm e payee
  by_address : (t : String) → In t e.chain_addresses → norm t ≡ norm payee → Lists norm e payee
  by_name : (t : String) → In t (names_of e.name) → norm t ≡ norm payee → Lists norm e payee

module _ (norm : String → String) (k : String) where
  -- What a map has it keeps, and gets.
  is_some-set :
      (j : String) (e : SanctionEntry) (m : Map SanctionEntry)
      → is_some (get k m) ≡ true
      → is_some (get k (set j e m)) ≡ true
  is_some-set j e m h = rw (get-set j k e m) (ground (arith, h))

  is_some-set_all :
      (e : SanctionEntry) (keys : List String) (m : Map SanctionEntry)
      → is_some (get k m) ≡ true
      → is_some (get k (set_all norm e keys m)) ≡ true
  unfolding set_all
  is_some-set_all e [] m h = h
  is_some-set_all e (j ∷ keys) m h =
      is_some-set_all e keys (set (norm j) e m) (is_some-set (norm j) e m h)

  set_all-In :
      (e : SanctionEntry) (keys : List String) (m : Map SanctionEntry) (t : String)
      → In t keys
      → norm t ≡ k
      → is_some (get k (set_all norm e keys m)) ≡ true
  unfolding set_all
  set_all-In e [] m t i same = absurd i
  set_all-In e (j ∷ keys) m t (inl p) same =
      let here : is_some (get k (set (norm j) e m)) ≡ true =
        rw (get-set (norm j) k e m, ap norm (sym p) ∙ same, eq_refl) refl in
      is_some-set_all e keys (set (norm j) e m) here
  set_all-In e (j ∷ keys) m t (inr i) same = set_all-In e keys (set (norm j) e m) t i same

  -- The key is in one of the maps.
  Found : Index → Type 0
  Found i =
      (is_some (get k i.by_name) ≡ true)
      ⊎ ((is_some (get k i.by_payee) ≡ true) ⊎ (is_some (get k i.by_address) ≡ true))

  Found-add_entry : (e : SanctionEntry) (i : Index) → Found i → Found (add_entry norm e i)
  unfolding Found add_entry
  Found-add_entry e i (inl h) =
      inl (is_some-set_all e e.aliases _ (is_some-set_all e (names_of e.name) i.by_name h))
  Found-add_entry e i (inr (inl h)) = inr (inl (is_some-set_all e e.payees i.by_payee h))
  Found-add_entry e i (inr (inr h)) = inr (inr (is_some-set_all e e.chain_addresses i.by_address h))

  Found-index_entries :
      (list : List SanctionEntry) (i : Index) → Found i → Found (index_entries norm list i)
  unfolding index_entries
  Found-index_entries [] i h = h
  Found-index_entries (e ∷ list) i h =
      Found-index_entries list (add_entry norm e i) (Found-add_entry e i h)

  Lists-add_entry :
      (payee : String) (e : SanctionEntry) (i : Index)
      → norm payee ≡ k
      → Lists norm e payee
      → Found (add_entry norm e i)
  unfolding Found add_entry
  Lists-add_entry payee e i key (by_id t j p) =
      inr (inl (set_all-In e e.payees i.by_payee t j (p ∙ key)))
  Lists-add_entry payee e i key (by_alias t j p) = inl (set_all-In e e.aliases _ t j (p ∙ key))
  Lists-add_entry payee e i key (by_address t j p) =
      inr (inr (set_all-In e e.chain_addresses i.by_address t j (p ∙ key)))
  Lists-add_entry payee e i key (by_name t j p) =
      inl (is_some-set_all e e.aliases _ (set_all-In e (names_of e.name) i.by_name t j (p ∙ key)))

  Found-listed :
      (payee : String) (e : SanctionEntry) (list : List SanctionEntry) (i : Index)
      → norm payee ≡ k
      → In e list
      → Lists norm e payee
      → Found (index_entries norm list i)
  unfolding index_entries
  Found-listed payee e [] i key at l = absurd at
  Found-listed payee e (f ∷ list) i key (inl p) l =
      Found-index_entries list (add_entry norm f i)
        (Lists-add_entry payee f i key (subst (λ e. Lists norm e payee) p l))
  Found-listed payee e (f ∷ list) i key (inr at) l =
      Found-listed payee e list (add_entry norm f i) key at l

  Found-refused : (i : Index) → Found i → is_refused (verdict_of (hit_of k i)) ≡ true
  unfolding Found hit_of
  Found-refused i (inl h) = ground (arith, h)
  Found-refused i (inr (inl h)) = ground (arith, h)
  Found-refused i (inr (inr h)) = ground (arith, h)

-- A payee that an entry of the sanctions list names, by an id, a name, an alias or an address that is
-- the same once both are normalised, is not paid: where the rule of the list screener is among the
-- deny rules, the gate blocks the payment, whatever the mandates, the caps and the trust are.
pub listed-block :
    (norm : String → String) (list : List SanctionEntry) (id reason : Option String)
    (intent : PaymentIntent) (ctx : GateContext) (e : SanctionEntry)
    → In e list
    → Lists norm e intent.payee
    → In (deny_rule_from_compliance (list_screener norm list id) reason) ctx.deny_rules
    → (evaluate_gate intent ctx).outcome ≡ block
unfolding deny_rule_from_compliance list_screener
listed-block norm list id reason intent ctx e at l rule =
    deny_rule-block intent ctx (deny_rule_from_compliance (list_screener norm list id) reason) rule
      (Found-refused norm (norm intent.payee) _
        (Found-listed norm (norm intent.payee) intent.payee e list empty_index refl at l))
