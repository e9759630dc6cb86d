-- ===== src/ReplaySim/Tests.antt =====
-- A replay of one decision, under the policy that took it.
use agentworth.Prelude.{◌≡◌, sym, ◌∙◌, inl, inr, ◌+◌, List, [], ◌∷◌, none, length, filter}
use agentworth.Types.{reversible, trusted}
use agentworth.Gate.{evaluate_gate}
use agentworth.Audit.{AuditEntry, DecisionPayload, gate_decision, decided, next_entry}
use agentworth.Examples.{groceries, shop, shop_context, new_year, toy_keys}
use agentworth.ReplaySim.{ReplayCandidate, replay_audit}
use agentworth.ReplaySim.Budget.{Distinct, Replays, replay_audit-Replays}

abbrev shop_decision : DecisionPayload
shop_decision = record {
  intent_id = "p1";
  verdict = evaluate_gate shop shop_context;
  ctx_digest = "c";
  intent = shop;
  inputs = record {
    reversibility = reversible;
    trust = trusted;
    known_payees = [];
    period_spend = [];
    attestation = none;
    reputation = none;
    fx_rates = [];
  };
  policy_hash = "h";
}

abbrev decision_log : List AuditEntry
decision_log = next_entry toy_keys [] gate_decision (decided shop_decision) new_year ∷ []

abbrev same_policy : ReplayCandidate
same_policy = record { mandates = groceries ∷ []; config = none; deny_rules = none }

one_mandate : Distinct same_policy.mandates
one_mandate m n (inl e) (inl f) h = e ∙ sym f
one_mandate m n (inl e) (inr f) h = absurd f
one_mandate m n (inr e) f h = absurd e

replay_audit-Replays_example :
    let r = replay_audit decision_log same_policy in
    Replays same_policy [] decision_log r.records
    × (r.total ≡ length r.records)
    × (r.changed ≡ length (filter (λ x. x.changed) r.records))
    × (r.changed + r.unchanged ≡ r.total)
replay_audit-Replays_example = replay_audit-Replays decision_log same_policy one_mandate
