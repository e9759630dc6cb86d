-- ===== src/RiskChain/Tests.antt =====
-- Runs of the risk chain on a log with two payments to one payee.
use agentworth.Prelude.{ℕ, String, Bool, true, false, ◌≡◌, refl, Option, none, some, List, [], ◌∷◌}
use agentworth.Types.{auto_execute, TrustLevel, Reversibility, smurfing}
use agentworth.Audit.{AuditEntry, DecisionPayload, decided, gate_decision, append}
use agentworth.Gate.{unscored}
use agentworth.RiskChain.{
  evaluate_risk_chain, default_options, window_start, recent_decisions, is_smurfing, is_splitting,
  is_probing, is_drain,
}
use agentworth.RiskChain.Alerts.{Quiet, evaluate_risk_chain-Quiet}
use agentworth.Examples.{toy_keys, shop, new_year}

abbrev automatic : DecisionPayload
automatic = record {
  intent_id = "p0";
  verdict = record {
    outcome = auto_execute;
    reasons = [];
    mandate_id = some "m1";
    risk = unscored;
    remaining = some 90_000;
    suggested_fix = none;
  };
  ctx_digest = "inputs";
  intent = shop;
  inputs = record {
    reversibility = Reversibility.reversible;
    trust = TrustLevel.seen;
    known_payees = [];
    period_spend = [];
    attestation = none;
    reputation = none;
    fx_rates = [];
  };
  policy_hash = "policy";
}

abbrev after : List AuditEntry → List AuditEntry
after log = append toy_keys log gate_decision (decided automatic) new_year

two_quiet : evaluate_risk_chain shop (after (after [])) new_year (default_options false) ≡ none
unfolding evaluate_risk_chain is_smurfing recent_decisions append is_splitting
    agentworth.Prelude.distinct is_probing is_drain
two_quiet = refl

three_smurf :
    evaluate_risk_chain shop (after (after (after []))) new_year (default_options false)
    ≡ some smurfing
unfolding evaluate_risk_chain is_smurfing recent_decisions append
three_smurf = refl

evaluate_risk_chain-Quiet_example :
    Quiet shop
      (after (after []))
      (window_start new_year (default_options false))
      (default_options false)
evaluate_risk_chain-Quiet_example =
    evaluate_risk_chain-Quiet shop (after (after [])) new_year (default_options false) two_quiet
