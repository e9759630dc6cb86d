-- ===== src/Gate/Tests.antt =====
-- Runs of the gate on concrete payments.
use agentworth.Prelude.{
  ℕ, ◌≡◌, refl, Bool, true, false, Option, none, some, List, [], ◌∷◌, In, inl, inr, arith,
}
use agentworth.Types.{Mandate, PaymentIntent, auto_execute, block, trusted, registry_attested, good}
use agentworth.Risk.{classify_spend_risk}
use agentworth.Gate.{
  is_live_mandate, covers, denied_by, authorizing, risk_of, amount_in, elevated, scrutinise,
  check_caps, authorize, screen, rationale_length, validate, evaluate_gate,
}
use agentworth.Gate.Authority.{
  Authorized, Attributed, auto_execute-Authorized, auto_execute_complete,
}
use agentworth.Gate.Floor.{is_block, Standing, with_standing, block-standing, deny_rule-block}
use agentworth.Payee.{spoofed_payee_rule, irreversible_unknown_payee_rule}
use agentworth.Examples.{groceries, shop, shop_context}

shop_auto : (evaluate_gate shop shop_context).outcome ≡ auto_execute
unfolding evaluate_gate validate rationale_length screen denied_by authorize authorizing
    is_live_mandate covers check_caps amount_in risk_of classify_spend_risk elevated scrutinise
    spoofed_payee_rule irreversible_unknown_payee_rule agentworth.Prelude.Int.◌+ℤ◌
shop_auto = refl

auto_execute-Authorized_example :
    (amount : ℕ) × (m : Mandate) × Authorized shop shop_context amount m
    × Attributed
        (evaluate_gate shop shop_context)
        shop_context
        m
        (amount_in m shop amount shop_context.convert)
auto_execute-Authorized_example = auto_execute-Authorized shop shop_context shop_auto

shop-Authorized : Authorized shop shop_context 8000 groceries
unfolding rationale_length is_live_mandate covers amount_in risk_of classify_spend_risk
    spoofed_payee_rule irreversible_unknown_payee_rule agentworth.Prelude.Int.◌+ℤ◌
shop-Authorized = record {
  whole = refl;
  positive = omega arith;
  explained = omega arith;
  undenied = λ r i. elim i [ inl e ↦ rw e refl | inr (inl e) ↦ rw e refl | inr (inr i) ↦ absurd i ];
  granted = inl refl;
  live = refl;
  covering = refl;
  under_tx_cap = omega arith;
  under_period_cap = omega arith;
  known = λ e. cc;
  unhurried = omega arith;
  calm = λ e. cc;
}

auto_execute_complete_example : (evaluate_gate shop shop_context).outcome ≡ auto_execute
unfolding authorizing is_live_mandate covers
auto_execute_complete_example =
    auto_execute_complete shop shop_context 8000 groceries shop-Authorized refl

abbrev spoofed : PaymentIntent
spoofed = record shop { payee = "te\u{200b}sco" }

abbrev friend : Standing
friend = record {
  trust_of = some (λ p. trusted);
  attestation = some registry_attested;
  reputation_of = some (λ p. some good);
}

block-standing_example :
    is_block (evaluate_gate shop (with_standing shop_context friend)).outcome
    ≡ is_block (evaluate_gate shop shop_context).outcome
block-standing_example = block-standing shop shop_context friend

deny_rule-block_example : (evaluate_gate spoofed shop_context).outcome ≡ block
unfolding spoofed_payee_rule agentworth.Payee.has_invisible_chars agentworth.Payee.is_invisible
deny_rule-block_example =
    deny_rule-block spoofed shop_context spoofed_payee_rule (inr (inl refl)) refl
