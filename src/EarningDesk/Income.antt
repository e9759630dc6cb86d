-- ===== src/EarningDesk/Income.antt =====
-- What src/earn/earningDesk.ts records as income.
use agentworth.Prelude.{
  ℕ, ◌≤◌, ◌≡◌, refl, String, true, false, Option, none, some, List, [], ◌⊎◌, arith, In, inl, inr,
  any-find, eq_iff, subst, str_eq, Bool-cases,
}
use agentworth.Audit.{
  earning_received, earning_rejected, received, rejected, InboundPayment, InboundAmount,
  whole_amount, not_a_number, EarningReason, verify,
}
use agentworth.Executor.{State}
use agentworth.EarningDesk.{
  AcceptancePolicy, ReceiveResult, Verification, confirms, denies, fails, EarningDeskDeps,
  is_offered, price_reasons, evaluate_inbound, record_earning, refuse, settle_inbound, confirm,
  receive,
}

-- An amount of at least the minimum price, or none that can be compared with it.
abbrev pub Priced : ℕ → InboundAmount → Type 0
Priced least a = (a ≡ not_a_number) ⊎ ((n : ℕ) × (a ≡ whole_amount n) × (least ≤ n))

-- What an accepted payment satisfies.
pub record Earned (d : EarningDeskDeps) (p : InboundPayment) : Type 0 where
  pub currency : p.currency ≡ d.policy.currency
  pub price : Priced d.policy.min_price_minor p.amount_minor
  pub offered :
      (services : List String) → d.policy.allowed_services ≡ some services → In p.service services
  pub proven :
      (verify : InboundPayment → Verification) × (d.verifier ≡ some verify) × (verify p ≡ confirms)

-- How a call leaves the log: a payment that is accepted is recorded as received, one that is not as
-- rejected, and a call that throws records nothing.
pub data Recorded (d : EarningDeskDeps) (now : ℕ) (p : InboundPayment) (s : State)
    : State × Option ReceiveResult → Type 0 where
  took :
      (r : ReceiveResult)
      → r.accepted ≡ true
      → Earned d p
      → Recorded d now p s (
        record_earning d.keys earning_received
            (received p.service p.amount_minor p.currency p.payer)
            now
            s,
        some r,
      )
  turned_down :
      (r : ReceiveResult)
      → r.accepted ≡ false
      → Recorded d now p s
          (record_earning d.keys earning_rejected (rejected p r.reasons) now s, some r)
  failed : Recorded d now p s (s, none)

some-inj : {A : Type 0} {x y : A} → some x ≡ some y → x ≡ y
some-inj h = cc

is_offered-In :
    (o : Option (List String)) (service : String)
    → is_offered o service ≡ true
    → (services : List String) → o ≡ some services
    → In service services
is_offered-In none service h services e = cc
is_offered-In (some names) service h services e =
    let (n, i, same) = any-find (λ s. str_eq s service) names h in
    subst (λ names. In service names) (some-inj e)
      (subst (λ m. In m names) ((eq_iff n service).0 same) i)

price_reasons-nil : (a : InboundAmount) (least : ℕ) → price_reasons a least ≡ [] → Priced least a
price_reasons-nil (whole_amount n) least h = inr (n, refl, ground (arith, h))
price_reasons-nil not_a_number least h = inl refl

accepted-parts :
    (p : InboundPayment) (policy : AcceptancePolicy)
    → (evaluate_inbound p policy).accepted ≡ true
    → (str_eq p.currency policy.currency ≡ true)
      × (price_reasons p.amount_minor policy.min_price_minor ≡ [])
      × (is_offered policy.allowed_services p.service ≡ true)
unfolding evaluate_inbound
accepted-parts p policy h = (ground arith, ground arith, ground arith)

refuse-Recorded :
    (d : EarningDeskDeps) (now : ℕ) (p : InboundPayment) (reasons : List EarningReason) (s : State)
    → Recorded d now p s (refuse d now p reasons s)
unfolding refuse
refuse-Recorded d now p reasons s =
    turned_down (record { accepted = false; reasons = reasons }) refl

module _ (d : EarningDeskDeps) (now : ℕ) (p : InboundPayment) (s : State)
    (fits : (evaluate_inbound p d.policy).accepted ≡ true) where
  settle_inbound-Recorded :
      (verify : InboundPayment → Verification) (v : Verification)
      → d.verifier ≡ some verify
      → verify p ≡ v
      → Recorded d now p s (settle_inbound d now p v s)
  unfolding settle_inbound
  settle_inbound-Recorded verify fails e q = failed
  settle_inbound-Recorded verify denies e q = refuse-Recorded d now p _ s
  settle_inbound-Recorded verify confirms e q =
      let (currency, price, offered) = accepted-parts p d.policy fits in
      took _ refl (record {
        currency = (eq_iff p.currency d.policy.currency).0 currency;
        price = price_reasons-nil p.amount_minor d.policy.min_price_minor price;
        offered = is_offered-In d.policy.allowed_services p.service offered;
        proven = (verify, e, q);
      })

  confirm-Recorded :
      (o : Option (InboundPayment → Verification))
      → d.verifier ≡ o
      → Recorded d now p s (confirm d now p o s)
  unfolding confirm
  confirm-Recorded none e = refuse-Recorded d now p _ s
  confirm-Recorded (some verify) e = settle_inbound-Recorded verify (verify p) e refl

-- Whatever is received, the call records one entry, and income only with a proof that the verifier
-- confirmed, in the currency of the policy, of at least the minimum price or of an amount that is
-- NaN, which the comparison lets through, for a service that is offered; it says that the payment is accepted exactly then. A payment that is not accepted is
-- recorded as rejected with the reasons that the caller gets, also when there is no verifier; only a
-- verifier that throws leaves no entry.
pub receive-Recorded :
    (d : EarningDeskDeps) (now : ℕ) (p : InboundPayment) (s : State)
    → Recorded d now p s (receive d now p s)
unfolding receive
receive-Recorded d now p s = elim (Bool-cases (evaluate_inbound p d.policy).accepted) [
  | inl fits ↦ rw fits (confirm-Recorded d now p s fits d.verifier refl)
  | inr other ↦ rw other (refuse-Recorded d now p _ s)
]
