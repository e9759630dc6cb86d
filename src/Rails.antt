-- ===== src/Rails.antt =====
-- src/rails/provider.ts, src/rails/registry.ts and src/rails/fakeRail.ts. What a provider does is a function;
-- a thrown error is its message.
pub mod Routing
pub mod Network
mod Tests
use agentworth.Prelude.{
  ℕ, String, Bool, true, false, ◌&&◌, Option, none, some, List, [], ◌∷◌, ◌++◌, map, str_eq,
  if◌then◌else◌, filter, is_some, any,
}
use agentworth.Prelude.Map.{Map, get, set}
use agentworth.Types.{
  RailKind, rail_eq, Reversibility, irreversible, rail_reversibility, is_irreversible,
  PaymentIntent, Receipt, SettlementFinality, final, minor_units, onchain, card, checkout,
}
use agentworth.Types

pub record Capabilities : Type 0 where
  pub id : String
  pub rail : RailKind
  pub reversibility : Reversibility

pub data Attempt {ℓ} (A : Type ℓ) : Type ℓ where
  done : A → Attempt A
  threw : String → Attempt A

pub record Provider : Type 0 where
  pub capabilities : Capabilities
  pub settle : PaymentIntent → ℕ → Attempt Receipt
  pub verify_receipt : Receipt → Bool
  pub refund : Option (Receipt → ℕ → ℕ → Attempt String)

pub record Registry : Type 0 where
  pub providers : List Provider
  pub routes : RailKind → Option String

abbrev by_id_map : List Provider → Map Provider → Map Provider
by_id_map [] m = m
by_id_map (p ∷ ps) m = by_id_map ps (set p.capabilities.id p m)

-- `byId`: of two providers with one id the later is kept.
unfoldable pub by_id : Registry → String → Option Provider
by_id r id = get id (by_id_map r.providers [])

-- The only element of a list.
abbrev sole : List Provider → Option Provider
sole (p ∷ []) = some p
sole _ = none

abbrev pub of_kind : RailKind → List Provider → List Provider
of_kind rail ps = filter (λ p. rail_eq p.capabilities.rail rail) ps

abbrev routed : Registry → Option String → Option Provider
routed r none = none
routed r (some id) = by_id r id

-- `get`: the routed provider, else the only one of the kind.
unfoldable pub get_provider : Registry → RailKind → Option Provider
get_provider r rail = elim (routed r (r.routes rail)) [
  | some p ↦ some p
  | none ↦ sole (of_kind rail r.providers)
]

abbrev ids_of : List Provider → List String → List String
ids_of [] seen = seen
ids_of (p ∷ ps) seen =
    ids_of ps
      (if any (λ i. str_eq i p.capabilities.id) seen then seen else seen ++ p.capabilities.id ∷ [])

-- `ids`: each id once, in the order in which it is first registered.
unfoldable pub ids : Registry → List String
ids r = ids_of r.providers []

-- src/rails/fakeRail.ts: what the ids of a fake receipt are made of.
pub record FakeNames : Type 0 where
  pub provider_name : RailKind → String
  pub receipt_name : String → String
  pub reference : RailKind → String → String
  pub is_reference : RailKind → String → Bool
  pub refund_reference : RailKind → String → ℕ → String
  pub declined : RailKind → String

unfoldable pub fake_settle :
    FakeNames → RailKind → (PaymentIntent → Bool) → PaymentIntent → ℕ → Attempt Receipt
fake_settle n rail fail_on intent now =
    if fail_on intent
    then threw (n.declined rail)
    else done (record {
      id = n.receipt_name intent.id;
      intent_id = intent.id;
      rail = rail;
      amount = minor_units intent.amount;
      currency = intent.currency;
      settled_at = now;
      provider_ref = n.reference rail intent.id;
      finality =
          if is_irreversible (rail_reversibility rail)
          then SettlementFinality.final
          else SettlementFinality.reversible;
      provider_id = none;
    })

unfoldable pub fake_rail : FakeNames → RailKind → (PaymentIntent → Bool) → Provider
unfolding fake_settle
fake_rail n rail fail_on = record {
  capabilities = record {
    id = n.provider_name rail;
    rail = rail;
    reversibility = rail_reversibility rail;
  };
  settle = fake_settle n rail fail_on;
  verify_receipt =
      λ r. n.is_reference rail r.provider_ref && str_eq r.id (n.receipt_name r.intent_id);
  refund = some (λ r amount now. done (n.refund_reference rail r.intent_id amount));
}
