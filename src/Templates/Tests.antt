-- ===== src/Templates/Tests.antt =====
-- Runs of the presets of src/core/mandateTemplates.ts and src/core/streaming.ts.
use agentworth.Prelude.{ℕ, ◌≡◌, ◌≢◌, ◌≤◌, ◌<◌, refl, none, [], ◌∷◌}
use agentworth.Types.{onchain, auto_execute, payee_class, GateContext, minor}
use agentworth.Examples.{shop, shop_context, new_year}
use agentworth.Gate.{
  denied_by, is_live_mandate, covers, authorizing, risk_of, amount_in, elevated, scrutinise,
  check_caps, authorize, screen, rationale_length, validate, evaluate_gate,
}
use agentworth.Risk.{classify_spend_risk}
use agentworth.Payee.{spoofed_payee_rule, irreversible_unknown_payee_rule}
use agentworth.Templates.{
  groceries, TemplateSpec, template_defaults, template_mandate, streaming_mandate,
}
use agentworth.Templates.Scope.{template_mandate-Authorized}

abbrev weekly : TemplateSpec
weekly = record {
  id = "m7";
  currency = "GBP";
  granted_at = new_year;
  expires_at = 1_769_904_000_000;
  label = none;
}

named_after : (template_mandate groceries weekly).label ≡ "groceries"
unfolding template_mandate
named_after = refl

-- A stream of payments is on chain, and has small caps for a payment, when nothing else is said.
stream_defaults :
    (streaming_mandate (record {
      id = "m8";
      label = "metered calls";
      scope = payee_class "api";
      currency = "USDC";
      granted_at = new_year;
      expires_at = 1_769_904_000_000;
      rail = none;
      per_tx_cap_minor = none;
      per_period_cap_minor = none;
    })).allowed_rails
    ≡ onchain ∷ []
unfolding streaming_mandate
stream_defaults = refl

abbrev weekly_context : GateContext
weekly_context = record shop_context { mandates = template_mandate groceries weekly ∷ [] }

-- The weekly shop of 80.00 is within the preset's cap of 200.00.
weekly_auto : (evaluate_gate shop weekly_context).outcome ≡ auto_execute
unfolding template_mandate evaluate_gate validate rationale_length screen denied_by authorize
    authorizing is_live_mandate covers check_caps amount_in risk_of classify_spend_risk elevated
    scrutinise spoofed_payee_rule irreversible_unknown_payee_rule agentworth.Prelude.Int.◌+ℤ◌
weekly_auto = refl

template_mandate-Authorized_example :
    (shop.payee_class ≡ (template_defaults groceries).scope_class)
    × (shop.rail ≢ onchain)
    × (weekly_context.now < weekly.expires_at)
    × (n : ℕ) × (shop.amount ≡ minor n)
    × (amount_in (template_mandate groceries weekly) shop n weekly_context.convert
        ≤ (template_defaults groceries).per_tx_cap)
template_mandate-Authorized_example =
    template_mandate-Authorized groceries weekly shop weekly_context refl weekly_auto
