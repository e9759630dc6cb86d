-- ===== src/EarningDesk/Tests.antt =====
-- Runs of the earning desk.
use agentworth.Prelude.{◌≡◌, refl, true, false, none, some, [], ◌∷◌}
use agentworth.Examples.{toy_keys}
use agentworth.Audit.{InboundPayment, whole_amount, not_a_number}
use agentworth.Sdk.History.{empty_state}
use agentworth.EarningDesk.{EarningDeskDeps, confirms, evaluate_inbound, receive}
use agentworth.EarningDesk.Income.{Recorded, receive-Recorded}

abbrev sale : InboundPayment
sale = record {
  service = "summary";
  amount_minor = whole_amount 500;
  currency = "USDC";
  payer = none;
  proof = some "0xfeed";
}

abbrev desk : EarningDeskDeps
desk = record {
  keys = toy_keys;
  policy = record {
    currency = "USDC";
    min_price_minor = 100;
    allowed_services = some ("summary" ∷ []);
  };
  verifier = some (λ p. confirms);
}

sale_accepted : (evaluate_inbound sale desk.policy).accepted ≡ true
unfolding evaluate_inbound
sale_accepted = refl

too_cheap :
    (evaluate_inbound (record sale { amount_minor = whole_amount 99 }) desk.policy).accepted ≡ false
unfolding evaluate_inbound
too_cheap = refl

-- A payment of NaN passes the policy.
nan_accepted :
    (evaluate_inbound (record sale { amount_minor = not_a_number }) desk.policy).accepted ≡ true
unfolding evaluate_inbound
nan_accepted = refl

receive-Recorded_example : Recorded desk 10 sale empty_state (receive desk 10 sale empty_state)
receive-Recorded_example = receive-Recorded desk 10 sale empty_state
