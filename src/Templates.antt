-- ===== src/Templates.antt =====
-- src/core/mandateTemplates.ts and src/core/streaming.ts: presets of mandates.
pub mod Scope
mod Tests
use agentworth.Prelude.{ℕ, String, Option, List, [], ◌∷◌, get_or}
use agentworth.Types.{
  RailKind, onchain, card, checkout, PayeeScope, payee_class, Period, day, week, month, active,
  Mandate,
}

pub data MandateTemplate : Type 0 where
  groceries subscriptions transport utilities : MandateTemplate

pub record TemplateDefaults : Type 0 where
  pub scope_class : String
  pub rails : List RailKind
  pub per_tx_cap : ℕ
  pub per_period_cap : ℕ
  pub period : Period

-- TEMPLATES, with the name that stands for an absent label.
abbrev pub template_defaults : MandateTemplate → TemplateDefaults
template_defaults groceries = record {
  scope_class = "groceries";
  rails = card ∷ [];
  per_tx_cap = 200_00;
  per_period_cap = 800_00;
  period = week;
}
template_defaults subscriptions = record {
  scope_class = "subscription";
  rails = card ∷ checkout ∷ [];
  per_tx_cap = 50_00;
  per_period_cap = 200_00;
  period = month;
}
template_defaults transport = record {
  scope_class = "transport";
  rails = card ∷ [];
  per_tx_cap = 100_00;
  per_period_cap = 400_00;
  period = month;
}
template_defaults utilities = record {
  scope_class = "utilities";
  rails = card ∷ checkout ∷ [];
  per_tx_cap = 500_00;
  per_period_cap = 1500_00;
  period = month;
}

abbrev pub template_name : MandateTemplate → String
template_name groceries = "groceries"
template_name subscriptions = "subscriptions"
template_name transport = "transport"
template_name utilities = "utilities"

pub record TemplateSpec : Type 0 where
  pub id : String
  pub currency : String
  pub granted_at : ℕ
  pub expires_at : ℕ
  pub label : Option String

unfoldable pub template_mandate : MandateTemplate → TemplateSpec → Mandate
template_mandate template spec = record {
  id = spec.id;
  label = get_or spec.label (template_name template);
  scope = payee_class (template_defaults template).scope_class;
  currency = spec.currency;
  allowed_rails = (template_defaults template).rails;
  per_tx_cap = (template_defaults template).per_tx_cap;
  per_period_cap = (template_defaults template).per_period_cap;
  period = (template_defaults template).period;
  granted_at = spec.granted_at;
  expires_at = spec.expires_at;
  status = active;
}

pub record StreamingMandateSpec : Type 0 where
  pub id : String
  pub label : String
  pub scope : PayeeScope
  pub currency : String
  pub granted_at : ℕ
  pub expires_at : ℕ
  pub rail : Option RailKind
  pub per_tx_cap_minor : Option ℕ
  pub per_period_cap_minor : Option ℕ

unfoldable pub streaming_mandate : StreamingMandateSpec → Mandate
streaming_mandate spec = record {
  id = spec.id;
  label = spec.label;
  scope = spec.scope;
  currency = spec.currency;
  allowed_rails = get_or spec.rail onchain ∷ [];
  per_tx_cap = get_or spec.per_tx_cap_minor 100;
  per_period_cap = get_or spec.per_period_cap_minor 1_000_000;
  period = day;
  granted_at = spec.granted_at;
  expires_at = spec.expires_at;
  status = active;
}
