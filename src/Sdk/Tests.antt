-- ===== src/Sdk/Tests.antt =====
-- Runs of the executor and the facade: a grant, a payment, its approval, a refund, a halt.
use agentworth.Prelude.{◌≡◌, ◌≤◌, refl, ◌⊎◌, true, none, some, arith}
use agentworth.Executor.{State}
use agentworth.Executor.Operations.{execute}
use agentworth.Executor.Approval.{approve, refund}
use agentworth.Executor.Settlement.{Cleared, execute-Cleared}
use agentworth.Executor.Review.{Released, approve-Released}
use agentworth.Sdk.{grant}
use agentworth.Sdk.History.{Reach, here, next, grants, pays, approves, refunds, empty_state}
use agentworth.Sdk.Audited.{Audited, Reach-Audited}
use agentworth.Sdk.Ledger.{Sound, Reach-Sound}
use agentworth.Executor.Budget.{spent}
use agentworth.Store.{get_mandate}
use agentworth.Sdk.Budget.{execute-budget}
use agentworth.Sdk.Halted.{Killed, Unrevived, Unrevived-Killed}
use agentworth.Sdk.Halted
use agentworth.Executor.Approval.{engage_kill_switch}
use agentworth.Examples.{deps, groceries, shop, new_year}

abbrev granted_state : State
granted_state = (grant deps new_year groceries empty_state).0

-- A payment to a new payee waits for the operator.
abbrev pending_state : State
pending_state = (execute deps new_year shop none granted_state).0

abbrev paid_state : State
paid_state = (approve deps new_year "p1" "checked the basket" true pending_state).0

abbrev refunded_state : State
refunded_state = (refund deps new_year "p1" (some 3000) none paid_state).0

history : Reach deps empty_state refunded_state
history =
    next
      (next (next (next here (grants new_year groceries)) (pays new_year shop none))
        (approves new_year "p1" "checked the basket" true))
      (refunds new_year "p1" (some 3000) none)

execute-Cleared_example :
    ((execute deps new_year shop none granted_state).0.store.receipts
      ≡ granted_state.store.receipts)
    ⊎ Cleared deps new_year shop none granted_state
execute-Cleared_example = execute-Cleared deps new_year shop none granted_state

approve-Released_example :
    ((approve deps new_year "p1" "checked the basket" true pending_state).0.store.receipts
      ≡ pending_state.store.receipts)
    ⊎ Released deps new_year "p1" true pending_state
approve-Released_example =
    approve-Released deps new_year "p1" "checked the basket" true pending_state

Reach-Audited_example : Audited deps refunded_state
Reach-Audited_example = Reach-Audited deps refl refunded_state history

Reach-Sound_example : Sound refunded_state
Reach-Sound_example = Reach-Sound deps refunded_state history

halted_state : State
halted_state = (execute deps new_year shop none (engage_kill_switch pending_state)).0

halted_history : Unrevived deps (engage_kill_switch pending_state) halted_state
unfolding halted_state
halted_history = Halted.next Halted.here (pays new_year shop none) refl

Unrevived-Killed_example : Killed pending_state.store.receipts halted_state
Unrevived-Killed_example = Unrevived-Killed deps pending_state halted_state halted_history

execute-budget_example :
    spent "m1" new_year (execute deps new_year shop none granted_state).0.store ≤ 100_000
unfolding grant get_mandate agentworth.Store.insert_mandate agentworth.Store.period_spend
    agentworth.Prelude.Map.get agentworth.Executor.record_event agentworth.Prelude.Map.set
execute-budget_example =
    execute-budget deps new_year shop none granted_state groceries
      (next here (grants new_year groceries)) refl refl (omega arith)
