-- ===== src/GovernedWallet/Budget.antt =====
-- What a series of spends through src/rails/governedWallet.ts moves in all.
use agentworth.Prelude.{
  ℕ, ◌+◌, ◌≤◌, ◌≡◌, refl, ap, String, Option, none, some, List, [], ◌∷◌, ◌++◌, All, arith, subst,
  In, inl, inr, eq_refl, str_eq, Bool-cases,
}
use agentworth.Types.{
  Mandate, minor_units, PaymentIntent, Attestation, GateContext, GateDecision, GateOutcome,
  auto_execute, confirm_operator, block, PriorSpend,
}
use agentworth.Gate.{amount_in, spent_of}
use agentworth.Gate.Authority.{Authorized, auto_execute-Authorized}
use agentworth.Rails.{Attempt, done, threw}
use agentworth.GovernedWallet.{
  WalletSpendRequest, GovernedWalletDeps, or_else, cdp_spend_to_intent, carry_out, after_wallet,
  decided, spend, moved, spends,
}

-- The gate that the wallet asks knows one mandate, and is told what was moved under it.
pub record Told (m : Mandate) (history : List PriorSpend) (d : GovernedWalletDeps) : Type 0 where
  pub sole : (intent : PaymentIntent) → (d.gate intent).mandates ≡ m ∷ []
  pub history_told : (intent : PaymentIntent) → (d.gate intent).period_spend m.id ≡ history

-- The request is in the mandate's currency.
abbrev pub InCurrency : Mandate → WalletSpendRequest × ℕ → Type 0
InCurrency m (req, now) = or_else req.currency req.token ≡ some m.currency

moved-after_wallet :
    (intent : PaymentIntent) (decision : GateDecision) (a : Attempt String)
    → spent_of (moved (after_wallet intent decision a)) ≡ minor_units intent.amount
moved-after_wallet intent decision (threw e) = omega arith
moved-after_wallet intent decision (done ref) = omega arith

module _ (m : Mandate) (history : List PriorSpend) (d : GovernedWalletDeps)
    (told : Told m history d) (req : WalletSpendRequest) (attestation : Option Attestation) where
  module _ (intent : PaymentIntent) (same : intent.currency ≡ m.currency) where
    abbrev ctx : GateContext
    ctx = record (d.gate intent) { attestation = or_else attestation (d.gate intent).attestation }

    sole_mandate : (x : Mandate) → In x ctx.mandates → x ≡ m
    sole_mandate x i = elim (subst (In x) (told.sole intent) i) [ inl e ↦ e | inr i ↦ absurd i ]

    amount_in_same : (n : ℕ) → amount_in m intent n ctx.convert ≡ n
    unfolding amount_in
    amount_in_same n = rw (same, eq_refl) refl

    carried :
        (o : GateOutcome)
        → (decided d req attestation intent).outcome ≡ o
        → spent_of history ≤ m.per_period_cap
        → spent_of (moved (carry_out d req intent (decided d req attestation intent) o))
            + spent_of history
          ≤ m.per_period_cap
    carried confirm_operator h le = omega arith
    carried block h le = omega arith
    carried auto_execute h le =
        let (n, x, auth, _) = auto_execute-Authorized intent ctx h in
        let e = sole_mandate x auth.granted in
        let auth' = subst (Authorized intent ctx n) e auth in
        let cap = rw (told.history_told intent, amount_in_same n) at auth'.under_period_cap in
        omega (
          arith,
          cap,
          ap minor_units auth'.whole,
          moved-after_wallet intent (decided d req attestation intent) (d.execute req intent),
        )

  spend-moved :
      (now : ℕ)
      → InCurrency m (req, now)
      → spent_of history ≤ m.per_period_cap
      → spent_of (moved (spend d req attestation now)) + spent_of history ≤ m.per_period_cap
  unfolding spend cdp_spend_to_intent
  spend-moved now same le = rw same (elim (Bool-cases (str_eq m.currency "")) [
    | inl empty ↦ rw empty (omega arith)
    | inr other ↦ rw other (carried _ refl _ refl le)
  ])

spent_of-append : (xs ys : List PriorSpend) → spent_of (xs ++ ys) ≡ spent_of xs + spent_of ys
spent_of-append [] ys = omega arith
spent_of-append (x ∷ xs) ys = omega (arith, spent_of-append xs ys)

-- However many spends are asked for, in whatever order, what the wallet is called to move under a
-- mandate never exceeds the mandate's period cap, a call of the wallet that throws counted as moved;
-- the gate knows this one mandate and is told of every earlier call, the requests are in its
-- currency, and what was moved before the series is within the cap.
pub spends-budget :
    (m : Mandate) (wallet : List PriorSpend → GovernedWalletDeps) (history : List PriorSpend)
    (requests : List (WalletSpendRequest × ℕ))
    → ((told : List PriorSpend) → Told m told (wallet told))
    → All (InCurrency m) requests
    → spent_of history ≤ m.per_period_cap
    → spent_of (spends wallet history requests) ≤ m.per_period_cap
unfolding spends
spends-budget m wallet history [] told same le = le
spends-budget m wallet history ((req, now) ∷ rest) told (same, others) le =
    let once = spend-moved m history (wallet history) (told history) req none now same le in
    let new = moved (spend (wallet history) req none now) in
    spends-budget m wallet (new ++ history) rest told others
      (omega (arith, once, spent_of-append new history))
