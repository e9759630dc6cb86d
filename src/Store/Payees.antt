-- ===== src/Store/Payees.antt =====
-- Whose payments src/store/memoryStore.ts knows: those that the settled intents name.
use agentworth.Prelude.{
  ◌≡◌, String, ◌&&◌, ◌||◌, List, [], ◌∷◌, ◌++◌, arith, str_eq, eq_iff, any, Bool-cases, inl, inr,
}
use agentworth.Prelude.Map.{values}
use agentworth.Store.{Store, StoredIntent, is_settled, settled_payees, is_known_payee, add_to_set}

any-end :
    (q p : String) (ps : List String)
    → any (λ x. str_eq x p) (ps ++ q ∷ []) ≡ (any (λ x. str_eq x p) ps || str_eq q p)
any-end q p [] = ground arith
any-end q p (x ∷ ps) = ground (arith, any-end q p ps)

any-add_to_set :
    (q p : String) (ps : List String)
    → any (λ x. str_eq x p) (add_to_set q ps) ≡ (any (λ x. str_eq x p) ps || str_eq q p)
any-add_to_set q p ps = elim (Bool-cases (str_eq q p)) [
  | inl same ↦ ground (arith, any-end q p ps, eq_iff q p)
  | inr other ↦ ground (arith, any-end q p ps)
]

any-settled_payees :
    (p : String) (intents : List StoredIntent) (seen : List String)
    → any (λ x. str_eq x p) (settled_payees intents seen) ≡ (
        any (λ x. str_eq x p) seen
        || any (λ si. is_settled si.status && str_eq si.intent.payee p) intents)
unfolding settled_payees
any-settled_payees p [] seen = ground arith
any-settled_payees p (si ∷ rest) seen = elim (Bool-cases (is_settled si.status)) [
  | inl paid ↦ rw paid (
      ground (
        arith,
        any-settled_payees p rest (add_to_set si.intent.payee seen),
        any-add_to_set si.intent.payee p seen,
      ))
  | inr unpaid ↦ rw unpaid (any-settled_payees p rest seen)
]

pub is_known_payee-settled :
    (s : Store) (p : String)
    → is_known_payee s p
      ≡ any (λ si. is_settled si.status && str_eq si.intent.payee p) (values s.intents)
unfolding is_known_payee agentworth.Store.known_payees settled_payees
is_known_payee-settled s p = any-settled_payees p (values s.intents) []
