-- ===== src/Rails/Network.antt =====
-- src/rails/networkRail.ts with the rails that are made with it, and src/core/credentialBroker.ts. What a
-- client does on the network is an argument, and so are the texts of the errors.
pub mod Unconfigured
mod Tests
use Prim.Native.String.{◌++◌ as text_append}
use agentworth.Prelude.{
  ℕ, String, Bool, true, false, ◌&&◌, not, Option, none, some, str_eq, if◌then◌else◌, get_or,
}
use agentworth.Prelude.Map.{Map, get, set}
use agentworth.Types.{
  RailKind, onchain, card, checkout, Reversibility, irreversible, PaymentIntent, Receipt,
  SettlementFinality, minor_units,
}
use agentworth.Types
use agentworth.Rails.{Capabilities, Provider, Attempt, done, threw}

pub record RailSettlement : Type 0 where
  pub provider_ref : String
  pub finality : Option SettlementFinality

pub record RailClient : Type 0 where
  pub settle : PaymentIntent → Attempt RailSettlement
  pub verify_receipt : Option (Receipt → Bool)

pub record NetworkRailSpec : Type 0 where
  pub id : String
  pub rail : RailKind
  pub reversibility : Reversibility
  pub default_finality : SettlementFinality
  pub client : Option RailClient

abbrev pub receipt_id : NetworkRailSpec → String → String
receipt_id spec intent_id = text_append "rcpt_" (text_append spec.id (text_append "_" intent_id))

abbrev not_configured : NetworkRailSpec → String
not_configured spec = text_append spec.id (
    text_append " rail not configured: provide a RailClient with live "
      "credentials. Refusing to fabricate a settlement.")

-- The receipt of what the client has settled.
abbrev receipt_of : NetworkRailSpec → PaymentIntent → ℕ → Attempt RailSettlement → Attempt Receipt
receipt_of spec intent now (threw e) = threw e
receipt_of spec intent now (done settlement) = done (record {
  id = receipt_id spec intent.id;
  intent_id = intent.id;
  rail = spec.rail;
  amount = minor_units intent.amount;
  currency = intent.currency;
  settled_at = now;
  provider_ref = settlement.provider_ref;
  finality = get_or settlement.finality spec.default_finality;
  provider_id = none;
})

unfoldable pub network_settle : NetworkRailSpec → PaymentIntent → ℕ → Attempt Receipt
network_settle spec intent now = elim spec.client [
  | none ↦ threw (not_configured spec)
  | some client ↦ receipt_of spec intent now (client.settle intent)
]

abbrev own_check : NetworkRailSpec → Receipt → Bool
own_check spec r = str_eq r.id (receipt_id spec r.intent_id) && not (str_eq r.provider_ref "")

unfoldable pub network_verify : NetworkRailSpec → Receipt → Bool
network_verify spec r = elim spec.client [
  | none ↦ own_check spec r
  | some client ↦ elim client.verify_receipt [ none ↦ own_check spec r | some f ↦ f r ]
]

unfoldable pub create_network_rail : NetworkRailSpec → Provider
create_network_rail spec = record {
  capabilities = record { id = spec.id; rail = spec.rail; reversibility = spec.reversibility };
  settle = network_settle spec;
  verify_receipt = network_verify spec;
  refund = none;
}

abbrev pub create_x402_rail : Option RailClient → Provider
create_x402_rail client = create_network_rail (record {
  id = "x402";
  rail = onchain;
  reversibility = irreversible;
  default_finality = SettlementFinality.final;
  client = client;
})

abbrev pub create_onchain_rail : Option RailClient → Provider
create_onchain_rail client = create_network_rail (record {
  id = "direct-onchain";
  rail = onchain;
  reversibility = irreversible;
  default_finality = SettlementFinality.final;
  client = client;
})

abbrev pub create_mpp_rail : Option RailClient → Provider
create_mpp_rail client = create_network_rail (record {
  id = "mpp";
  rail = checkout;
  reversibility = irreversible;
  default_finality = SettlementFinality.pending;
  client = client;
})

abbrev pub create_ucp_rail : Option RailClient → Provider
create_ucp_rail client = create_network_rail (record {
  id = "ucp";
  rail = checkout;
  reversibility = irreversible;
  default_finality = SettlementFinality.pending;
  client = client;
})

abbrev pub create_agentic_commerce_rail : Option RailClient → Provider
create_agentic_commerce_rail client = create_network_rail (record {
  id = "agentic-commerce";
  rail = checkout;
  reversibility = Reversibility.reversible;
  default_finality = SettlementFinality.reversible;
  client = client;
})

abbrev pub create_visa_intelligent_commerce_rail : Option RailClient → Provider
create_visa_intelligent_commerce_rail client = create_network_rail (record {
  id = "visa-intelligent-commerce";
  rail = card;
  reversibility = Reversibility.reversible;
  default_finality = SettlementFinality.reversible;
  client = client;
})

abbrev pub create_mastercard_agent_pay_rail : Option RailClient → Provider
create_mastercard_agent_pay_rail client = create_network_rail (record {
  id = "mastercard-agent-pay";
  rail = card;
  reversibility = Reversibility.reversible;
  default_finality = SettlementFinality.reversible;
  client = client;
})

-- `CredentialBroker`: the vault of one broker.
abbrev pub Vault : Type 0
Vault = Map String

abbrev pub store_credential : String → String → Vault → Vault
store_credential key secret vault = set key secret vault

-- `retrieveCredential`: an empty secret is none. It throws where there is none.
unfoldable pub retrieve_credential : String → Vault → Option String
retrieve_credential key vault = elim (get key vault) [
  | none ↦ none
  | some secret ↦ if str_eq secret "" then none else some secret
]

abbrev not_registered : String → String
not_registered key =
    text_append "CredentialBroker: credential \""
      (text_append key "\" is not registered or configured.")

-- A provider that may read a secret off the intent that it settles.
pub record SecretProvider : Type 0 where
  pub capabilities : Capabilities
  pub settle : Option String → PaymentIntent → ℕ → Attempt Receipt
  pub verify_receipt : Receipt → Bool
  pub refund : Option (Receipt → ℕ → ℕ → Attempt String)

abbrev with_secret : SecretProvider → String → PaymentIntent → ℕ → Option String → Attempt Receipt
with_secret p key intent now none = threw (not_registered key)
with_secret p key intent now (some secret) = p.settle (some secret) intent now

-- `brokerProvider`, over what the vault holds at the settlement.
unfoldable pub broker_provider : Vault → SecretProvider → String → Provider
broker_provider vault p key = record {
  capabilities = p.capabilities;
  settle = λ intent now. with_secret p key intent now (retrieve_credential key vault);
  verify_receipt = p.verify_receipt;
  refund = p.refund;
}
