-- ===== src/GovernedWallet/Tests.antt =====
-- Runs of the governed wallet: three spends, of which the mandate's budget covers two.
use agentworth.Prelude.{ℕ, ◌≤◌, refl, none, some, List, [], ◌∷◌, arith}
use agentworth.Types.{minor, card, PriorSpend}
use agentworth.Examples.{groceries, new_year, shop_context}
use agentworth.Gate.{spent_of}
use agentworth.Rails.{done}
use agentworth.GovernedWallet.{WalletSpendRequest, GovernedWalletDeps, spends}
use agentworth.GovernedWallet.Budget.{spends-budget}

abbrev request : WalletSpendRequest
request = record {
  wallet = "w1";
  to = "tesco";
  amount = minor 40_000;
  token = some "GBP";
  currency = none;
  network = none;
  rationale = none;
  payee_class = some "groceries";
  payee = none;
  id = none;
}

abbrev wallet : List PriorSpend → GovernedWalletDeps
wallet history = record {
  gate = λ intent. record shop_context { period_spend = λ id. history };
  execute = λ req intent. done "0xfeed";
  rail = some card;
  derived_id = λ payee amount now. payee;
}

abbrev three : List (WalletSpendRequest × ℕ)
three = (request, new_year) ∷ (request, new_year) ∷ (request, new_year) ∷ []

spends-budget_example : spent_of (spends wallet [] three) ≤ 100_000
spends-budget_example =
    spends-budget groceries wallet [] three
      (λ told. record { sole = λ intent. refl; history_told = λ intent. refl })
      (refl, (refl, (refl, tt))) (omega arith)
