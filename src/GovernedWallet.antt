-- ===== src/GovernedWallet.antt =====
-- src/rails/governedWallet.ts: the gate above an agent's wallet. The live spend of the wallet and the
-- text of a derived intent id are arguments.
pub mod Budget
mod Tests
use agentworth.Prelude.{
  ℕ, String, Bool, true, false, Option, none, some, List, [], ◌∷◌, ◌++◌, str_eq, if◌then◌else◌,
  get_or,
}
use agentworth.Types.{
  Amount, minor_units, RailKind, onchain, PaymentIntent, Attestation, GateContext, GateDecision,
  GateOutcome, auto_execute, confirm_operator, block, PriorSpend,
}
use agentworth.Gate.{evaluate_gate}
use agentworth.Rails.{Attempt, done, threw}

pub record WalletSpendRequest : Type 0 where
  pub wallet : String
  pub to : String
  pub amount : Amount
  pub token : Option String
  pub currency : Option String
  pub network : Option String
  pub rationale : Option String
  pub payee_class : Option String
  pub payee : Option String
  pub id : Option String

pub record GovernedWalletDeps : Type 0 where
  pub gate : PaymentIntent → GateContext
  pub execute : WalletSpendRequest → PaymentIntent → Attempt String
  pub rail : Option RailKind
  pub derived_id : String → Amount → ℕ → String

-- `a ?? b`
abbrev pub or_else : {A : Type 0} → Option A → Option A → Option A
or_else none b = b
or_else (some a) b = some a

-- FALLBACK_RATIONALE
abbrev pub fallback_rationale : String
fallback_rationale = "agent wallet spend gated through AgentWorth before execution"

abbrev payee_of : WalletSpendRequest → String
payee_of req = get_or req.payee req.to

abbrev pub with_currency :
    GovernedWalletDeps → WalletSpendRequest → ℕ → Option String → Option PaymentIntent
with_currency d req now none = none
with_currency d req now (some currency) =
    if str_eq currency ""
    then none
    else some (record {
      id = get_or req.id (d.derived_id (payee_of req) req.amount now);
      payee = payee_of req;
      payee_class = get_or (or_else req.payee_class req.network) "wallet_spend";
      amount = req.amount;
      currency = currency;
      rail = get_or d.rail onchain;
      rationale = get_or req.rationale fallback_rationale;
      created_at = now;
    })

-- `cdpSpendToIntent`, as `spend` calls it; `none` is its throw on a missing currency.
unfoldable pub cdp_spend_to_intent :
    GovernedWalletDeps → WalletSpendRequest → ℕ → Option PaymentIntent
cdp_spend_to_intent d req now = with_currency d req now (or_else req.currency req.token)

pub record GovernedWalletResult : Type 0 where
  pub decision : GateDecision
  pub intent : PaymentIntent
  pub executed : Bool
  pub receipt : Option String

-- What a spend ends in: the throw of the mapping, the result, or the throw of the wallet.
pub data Spend : Type 0 where
  missing_currency : Spend
  governed : GovernedWalletResult → Spend
  wallet_threw : PaymentIntent → String → Spend

abbrev attested : GateContext → Option Attestation → GateContext
attested ctx attestation = record ctx { attestation = or_else attestation ctx.attestation }

abbrev pub after_wallet : PaymentIntent → GateDecision → Attempt String → Spend
after_wallet intent decision (threw e) = wallet_threw intent e
after_wallet intent decision (done ref) =
    governed (record { decision = decision; intent = intent; executed = true; receipt = some ref })

-- The wallet is called on `auto_execute` only.
abbrev pub carry_out :
    GovernedWalletDeps → WalletSpendRequest → PaymentIntent → GateDecision → GateOutcome → Spend
carry_out d req intent decision auto_execute = after_wallet intent decision (d.execute req intent)
carry_out d req intent decision confirm_operator =
    governed (record { decision = decision; intent = intent; executed = false; receipt = none })
carry_out d req intent decision block =
    governed (record { decision = decision; intent = intent; executed = false; receipt = none })

abbrev pub decided :
    GovernedWalletDeps → WalletSpendRequest → Option Attestation → PaymentIntent → GateDecision
decided d req attestation intent = evaluate_gate intent (attested (d.gate intent) attestation)

abbrev pub spend_intent :
    GovernedWalletDeps → WalletSpendRequest → Option Attestation → Option PaymentIntent → Spend
spend_intent d req attestation none = missing_currency
spend_intent d req attestation (some intent) =
    let decision = decided d req attestation intent in
    carry_out d req intent decision decision.outcome

unfoldable pub spend : GovernedWalletDeps → WalletSpendRequest → Option Attestation → ℕ → Spend
spend d req attestation now = spend_intent d req attestation (cdp_spend_to_intent d req now)

-- What the wallet may have moved: the payment for which it was called, whether it threw or not.
abbrev pub moved : Spend → List PriorSpend
moved missing_currency = []
moved (wallet_threw intent e) =
    record { amount = minor_units intent.amount; at = intent.created_at } ∷ []
moved (governed r) =
    if r.executed
    then record { amount = minor_units r.intent.amount; at = r.intent.created_at } ∷ []
    else []

-- A series of spends, each with its instant, over a gate that is told what was moved before.
unfoldable pub spends :
    (List PriorSpend → GovernedWalletDeps)
    → List PriorSpend
    → List (WalletSpendRequest × ℕ)
    → List PriorSpend
spends wallet history [] = history
spends wallet history ((req, now) ∷ rest) =
    spends wallet (moved (spend (wallet history) req none now) ++ history) rest
