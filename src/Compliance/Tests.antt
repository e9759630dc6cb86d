-- ===== src/Compliance/Tests.antt =====
-- Runs of the screens of src/compliance.
use agentworth.Prelude.{◌≡◌, refl, none, some, [], ◌∷◌, inl}
use agentworth.Prelude.Map.{get, set}
use agentworth.Types.{block, GateContext, minor}
use agentworth.Examples.{shop, shop_context, new_year}
use agentworth.Gate.{evaluate_gate}
use agentworth.Compliance.{
  SanctionEntry, ComplianceProvider, refused, suspicious, list_screener, index_entries, add_entry,
  set_all, hit_of, deny_rule_from_compliance, make_structuring_screener,
}
use agentworth.Compliance.Listed.{by_alias, listed-block}

abbrev launderer : SanctionEntry
launderer = record {
  ref = "SDN-1";
  name = some "acme";
  aliases = "tesco" ∷ [];
  payees = [];
  chain_addresses = [];
}

screened :
    (list_screener (λ s. s) (launderer ∷ []) none).screen shop ≡ refused "SDN-1" (some "acme")
unfolding list_screener index_entries add_entry set_all hit_of set get
screened = refl

-- Two earlier payments of 9500 and this one of 9900 are just under a threshold of 10000.
abbrev structuring : ComplianceProvider
structuring =
    make_structuring_screener
      (record {
        threshold_minor = 10_000;
        lower = 9000;
        window_minutes = none;
        min_count = none;
        risk_bump = none;
        id = none;
      })
      new_year
      (λ intent.
        record { amount = 9500; at = new_year } ∷ record { amount = 9500; at = new_year } ∷ [])

clustered : structuring.screen (record shop { amount = minor 9900 }) ≡ suspicious 3 2
unfolding make_structuring_screener
clustered = refl

abbrev screened_context : GateContext
screened_context = record shop_context {
  deny_rules =
      deny_rule_from_compliance (list_screener (λ s. s) (launderer ∷ []) none) none
      ∷ shop_context.deny_rules;
}

listed-block_example : (evaluate_gate shop screened_context).outcome ≡ block
listed-block_example =
    listed-block (λ s. s) (launderer ∷ []) none none shop screened_context launderer (inl refl)
      (by_alias "tesco" (inl refl) refl) (inl refl)
