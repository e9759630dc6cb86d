-- ===== src/Enforcement/Tests.antt =====
-- A replay of a concrete decision.
use agentworth.Prelude.{ℕ, Bool, true, false, ◌≡◌, refl, Option, none, some, List}
use agentworth.Enforcement.{sort_mandates}
use agentworth.Enforcement.Replay.{Replayed, replay-record_decision}
use agentworth.Executor.{State, is_streaming, gate_verdict}
use agentworth.RiskChain.{evaluate_risk_chain, default_options}
use agentworth.Sdk.{grant}
use agentworth.Sdk.History.{empty_state}
use agentworth.Examples.{deps, groceries, shop, new_year}

abbrev granted_state : State
granted_state = (grant deps new_year groceries empty_state).0

quiet :
    (streaming : Bool)
    → evaluate_risk_chain shop granted_state.log new_year (default_options streaming) ≡ none
unfolding evaluate_risk_chain agentworth.RiskChain.is_smurfing agentworth.RiskChain.recent_decisions
    grant agentworth.Store.insert_mandate agentworth.Prelude.Map.get
    agentworth.Executor.record_event agentworth.Audit.append agentworth.RiskChain.is_splitting
    agentworth.RiskChain.is_probing agentworth.RiskChain.is_drain
quiet true = refl
quiet false = refl

replay-record_decision_example : Replayed deps new_year shop none granted_state (λ c. c)
unfolding grant agentworth.Store.insert_mandate sort_mandates agentworth.Prelude.Map.get
    agentworth.Executor.record_event agentworth.Prelude.Map.set
replay-record_decision_example =
    replay-record_decision deps new_year shop none granted_state (λ c. c) refl refl
      (quiet (
        is_streaming (gate_verdict deps new_year shop none granted_state).mandate_id granted_state))
