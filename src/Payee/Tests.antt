-- ===== src/Payee/Tests.antt =====
-- Runs of the deny rules on a spoofed payee.
use agentworth.Prelude.{◌≡◌, refl, [], ◌∷◌, inl}
use agentworth.Types.{PaymentIntent, GateContext, block}
use agentworth.Gate.{evaluate_gate}
use agentworth.Payee.{blocklisted_payee_rule, is_invisible, fold_confusable}
use agentworth.Payee.Spoofing.{blocklisted-block}
use agentworth.Examples.{shop, shop_context}

-- The `e` and the `o` are Cyrillic.
abbrev look_alike : PaymentIntent
look_alike = record shop { payee = "tеscо" }

abbrev listing_context : GateContext
listing_context = record shop_context {
  deny_rules = blocklisted_payee_rule (λ cs. cs) ("tesco" ∷ []) ∷ [];
}

blocklisted-block_example : (evaluate_gate look_alike listing_context).outcome ≡ block
unfolding is_invisible fold_confusable
blocklisted-block_example =
    blocklisted-block (λ cs. cs) ("tesco" ∷ []) "tesco" look_alike listing_context (inl refl)
      (inl refl) refl
