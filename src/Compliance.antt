-- ===== src/Compliance.antt =====
-- src/compliance/sanctions.ts and src/compliance/aml.ts: screens of a payment before the gate. `norm`,
-- which trims, lowers and joins white space, is an argument, and so is the lower end of the amounts
-- just under a threshold, `Math.floor(threshold * (1 - margin))`.
pub mod Listed
pub mod Oversight
mod Tests
use Prim.Native.String.{◌++◌ as text_append}
use agentworth.Prelude.{
  ℕ, ◌+◌, ◌-◌, ◌*◌, String, Bool, true, false, ◌&&◌, Option, none, some, List, [], ◌∷◌, ltb, leb,
  str_eq, if◌then◌else◌, get_or, filter, length,
}
use agentworth.Prelude.Map.{Map, get, set}
use agentworth.Types.{PaymentIntent, minor_units, PriorSpend, DenyRule, ReputationLevel, flagged}

pub data ComplianceVerdict : Type 0 where
  clear : ComplianceVerdict
  suspicious : ℕ → ℕ → ComplianceVerdict
  refused : String → Option String → ComplianceVerdict

pub record ComplianceProvider : Type 0 where
  pub id : String
  pub screen : PaymentIntent → ComplianceVerdict

-- An absent list is the empty one.
pub record SanctionEntry : Type 0 where
  pub ref : String
  pub name : Option String
  pub aliases : List String
  pub payees : List String
  pub chain_addresses : List String

pub record Index : Type 0 where
  pub by_name : Map SanctionEntry
  pub by_payee : Map SanctionEntry
  pub by_address : Map SanctionEntry

unfoldable pub set_all :
    (String → String) → SanctionEntry → List String → Map SanctionEntry → Map SanctionEntry
set_all norm e [] m = m
set_all norm e (k ∷ keys) m = set_all norm e keys (set (norm k) e m)

-- The name, unless it is absent or empty.
abbrev pub names_of : Option String → List String
names_of none = []
names_of (some n) = if str_eq n "" then [] else n ∷ []

unfoldable pub add_entry : (String → String) → SanctionEntry → Index → Index
add_entry norm e i = record {
  by_name = set_all norm e e.aliases (set_all norm e (names_of e.name) i.by_name);
  by_payee = set_all norm e e.payees i.by_payee;
  by_address = set_all norm e e.chain_addresses i.by_address;
}

unfoldable pub index_entries : (String → String) → List SanctionEntry → Index → Index
index_entries norm [] i = i
index_entries norm (e ∷ rest) i = index_entries norm rest (add_entry norm e i)

abbrev pub or_else : Option SanctionEntry → Option SanctionEntry → Option SanctionEntry
or_else none b = b
or_else (some a) b = some a

unfoldable pub hit_of : String → Index → Option SanctionEntry
hit_of payee i =
    or_else (get payee i.by_payee) (or_else (get payee i.by_name) (get payee i.by_address))

abbrev pub verdict_of : Option SanctionEntry → ComplianceVerdict
verdict_of none = clear
verdict_of (some e) = refused e.ref e.name

abbrev pub empty_index : Index
empty_index = record { by_name = []; by_payee = []; by_address = [] }

-- `new ListScreener(opts)`
unfoldable pub list_screener :
    (String → String) → List SanctionEntry → Option String → ComplianceProvider
list_screener norm list id = record {
  id = get_or id "list-screener";
  screen = λ intent. verdict_of (hit_of (norm intent.payee) (index_entries norm list empty_index));
}

abbrev pub is_refused : ComplianceVerdict → Bool
is_refused (refused r n) = true
is_refused _ = false

unfoldable pub deny_rule_from_compliance : ComplianceProvider → Option String → DenyRule
deny_rule_from_compliance p reason = record {
  id = text_append "compliance:" p.id;
  reason = get_or reason "sanctions/AML compliance screening hit";
  matches = λ intent ctx. is_refused (p.screen intent);
}

abbrev reputation_by :
    ComplianceVerdict → Option (String → Option ReputationLevel) → String → Option ReputationLevel
reputation_by (suspicious n bump) base payee = some flagged
reputation_by (refused r n) base payee = some flagged
reputation_by clear none payee = none
reputation_by clear (some f) payee = f payee

-- `reputationFromCompliance`
unfoldable pub reputation_from_compliance :
    ComplianceProvider
    → Option (String → Option ReputationLevel)
    → PaymentIntent
    → Option ReputationLevel
reputation_from_compliance p base intent = reputation_by (p.screen intent) base intent.payee

pub record StructuringOptions : Type 0 where
  pub threshold_minor : ℕ
  pub lower : ℕ
  pub window_minutes : Option ℕ
  pub min_count : Option ℕ
  pub risk_bump : Option ℕ
  pub id : Option String

abbrev just_under : StructuringOptions → ℕ → Bool
just_under o amount = leb o.lower amount && ltb amount o.threshold_minor

-- How many of the payments are just under the threshold within the window, with this one.
abbrev cluster : StructuringOptions → ℕ → List PriorSpend → ℕ
cluster o now recent =
    let start = now - get_or o.window_minutes 1440 * 60_000 in
    length (filter (λ s. leb start s.at && just_under o s.amount) recent) + 1

-- `makeStructuringScreener`
unfoldable pub make_structuring_screener :
    StructuringOptions → ℕ → (PaymentIntent → List PriorSpend) → ComplianceProvider
make_structuring_screener o now recent_payments = record {
  id = get_or o.id "aml-structuring";
  screen = λ intent.
      if just_under o (minor_units intent.amount)
      then (let total = cluster o now (recent_payments intent) in
          if leb (get_or o.min_count 3) total
          then suspicious total (get_or o.risk_bump 2)
          else clear)
      else clear;
}
