-- ===== src/Examples.antt =====
-- Concrete values for the tests of the other modules: a weekly grocery mandate and a shop.
use agentworth.Prelude.{ℕ, true, false, none, some, List, [], ◌∷◌, ◌==◌, if◌then◌else◌}
use agentworth.Types.{
  card, payee_class, week, active, Mandate, minor, PaymentIntent, default_gate_config, GateContext,
  PriorSpend,
}
use agentworth.Payee.{default_deny_rules}
use agentworth.Audit.{AuditKeys}
use agentworth.Rails.{FakeNames, Registry, fake_rail}
use agentworth.Executor.{Deps}

-- 1 January 2026, a Thursday.
abbrev pub new_year : ℕ
new_year = 1_767_225_600_000

abbrev pub groceries : Mandate
groceries = record {
  id = "m1";
  label = "weekly groceries";
  scope = payee_class "groceries";
  currency = "GBP";
  allowed_rails = card ∷ [];
  per_tx_cap = 50_000;
  per_period_cap = 100_000;
  period = week;
  granted_at = new_year;
  expires_at = 1_769_904_000_000;
  status = active;
}

abbrev pub shop : PaymentIntent
shop = record {
  id = "p1";
  payee = "tesco";
  payee_class = "groceries";
  amount = minor 8000;
  currency = "GBP";
  rail = card;
  rationale = "the weekly grocery shop";
  created_at = new_year;
}

abbrev pub spent_so_far : List PriorSpend
spent_so_far =
    record { amount = 9000; at = new_year } ∷ record { amount = 7000; at = new_year } ∷ []

abbrev pub shop_context : GateContext
shop_context = record {
  now = 1_767_312_000_000;
  mandates = groceries ∷ [];
  period_spend = λ id. spent_so_far;
  known_payee = λ p. true;
  trust_of = none;
  convert = none;
  attestation = none;
  reputation_of = none;
  deny_rules = default_deny_rules;
  config = default_gate_config;
  reversibility = none;
}

-- A digest that tells apart only whether an entry is the first; enough for a run.
abbrev pub toy_keys : AuditKeys
toy_keys = record {
  hash_entry = λ seq ts type payload prev. if seq == 0 then "first" else "later";
  sign_hash = λ hash key. key;
  current_key = "key";
  current_version = some "v1";
  resolve_key = λ version. some "key";
}

abbrev pub names : FakeNames
names = record {
  provider_name = λ rail. "fake-card";
  receipt_name = λ id. "receipt";
  reference = λ rail id. "sim";
  is_reference = λ rail ref. true;
  refund_reference = λ rail id amount. "refund";
  declined = λ rail. "declined";
}

abbrev pub one_rail : Registry
one_rail = record { providers = fake_rail names card (λ intent. false) ∷ []; routes = λ rail. none }

abbrev pub deps : Deps
deps = record {
  rails = one_rail;
  keys = toy_keys;
  config = default_gate_config;
  deny_rules = default_deny_rules;
  breaker_threshold = 5;
  challenge_threshold = 100_000;
  fx = none;
  reputation = none;
  hash_policy = λ p. "policy";
  hash_inputs = λ i. "inputs";
}
