-- ===== src/Reconcile/Tests.antt =====
-- A reconciliation of two payments with a statement of two lines.
use agentworth.Prelude.{List, [], ◌∷◌, none}
use agentworth.Reconcile.{StatementLine, SettledPayment, default_window_ms, reconcile}
use agentworth.Reconcile.Partition.{IsReconciled, reconcile-IsReconciled}

abbrev settled_payments : List SettledPayment
settled_payments =
    record { intent_id = "a"; payee = "Shop"; amount_minor = 500; currency = "GBP"; at = 1000 }
    ∷ record { intent_id = "b"; payee = "Shop"; amount_minor = 500; currency = "GBP"; at = 2000 }
    ∷ []

abbrev statement : List StatementLine
statement =
    record { amount_minor = 700; currency = "GBP"; descriptor = "CLUB"; at = 1500 }
    ∷ record { amount_minor = 500; currency = "GBP"; descriptor = "SHOP"; at = 2500 }
    ∷ []

reconcile-IsReconciled_example :
    IsReconciled default_window_ms settled_payments statement
      (reconcile settled_payments statement none)
reconcile-IsReconciled_example = reconcile-IsReconciled settled_payments statement none
