-- ===== src/Gate/Floor.antt =====
-- What no earned trust relaxes: the hard blocks of src/core/gate.ts.
use agentworth.Prelude.{
  ℕ, ◌+◌, ◌-◌, ◌≡◌, refl, Bool, true, false, ◌||◌, Option, none, some, List, [], ◌∷◌, String, arith,
  ltb, In, find-In, is_some,
}
use agentworth.Types.{
  Mandate, Amount, minor, malformed, PaymentIntent, TrustLevel, Attestation, ReputationLevel,
  GateOutcome, block, DenyRule, GateContext, SpendRisk, Reason,
}
use agentworth.Gate.{
  trust_in, risk_of, elevated, recent_count, denied_by, deny_context, authorizing, amount_in,
  spent_of, scrutinise, check_caps, authorize, screen, validate, evaluate_gate,
}

abbrev pub is_block : GateOutcome → Bool
is_block block = true
is_block _ = false

-- What the gate learns of a payee's history and of who acts.
pub record Standing : Type 0 where
  pub trust_of : Option (String → TrustLevel)
  pub attestation : Option Attestation
  pub reputation_of : Option (String → Option ReputationLevel)

abbrev pub with_standing : GateContext → Standing → GateContext
with_standing ctx s = record ctx {
  trust_of = s.trust_of;
  attestation = s.attestation;
  reputation_of = s.reputation_of;
}

scrutinise-block :
    (intent : PaymentIntent) (m : Mandate) (risk : SpendRisk) (left : ℕ) (rs : List Reason)
    → is_block (scrutinise intent m risk left rs).outcome ≡ false
unfolding scrutinise
scrutinise-block intent m risk left [] = refl
scrutinise-block intent m risk left (r ∷ rs) = refl

abbrev over_caps : PaymentIntent → ℕ → Mandate → GateContext → Bool
over_caps intent amount m ctx =
    ltb m.per_tx_cap (amount_in m intent amount ctx.convert)
    || ltb m.per_period_cap
        (spent_of (ctx.period_spend m.id) + amount_in m intent amount ctx.convert)

check_caps-block :
    (intent : PaymentIntent) (amount : ℕ) (m : Mandate) (ctx : GateContext)
    → is_block (check_caps intent amount m ctx).outcome ≡ over_caps intent amount m ctx
unfolding check_caps
check_caps-block intent amount m ctx = ground (
  arith,
  scrutinise-block intent m (risk_of intent amount (ctx.period_spend m.id) ctx)
      (m.per_period_cap - spent_of (ctx.period_spend m.id) - amount_in m intent amount ctx.convert)
      (elevated (trust_in intent ctx) (recent_count (ctx.period_spend m.id) ctx.now ctx.config)
        ctx.config (risk_of intent amount (ctx.period_spend m.id) ctx).tier),
)

module _ (intent : PaymentIntent) (ctx : GateContext) (s : Standing) where
  authorize-standing :
      (amount : ℕ) (o : Option Mandate)
      → is_block (authorize intent amount o (with_standing ctx s)).outcome
        ≡ is_block (authorize intent amount o ctx).outcome
  unfolding authorize
  authorize-standing amount none = refl
  authorize-standing amount (some m) =
      rw (
        check_caps-block intent amount m (with_standing ctx s),
        check_caps-block intent amount m ctx,
      )

  screen-standing :
      (amount : ℕ) (o : Option DenyRule)
      → is_block (screen intent amount o (with_standing ctx s)).outcome
        ≡ is_block (screen intent amount o ctx).outcome
  unfolding screen authorizing
  screen-standing amount none = authorize-standing amount _
  screen-standing amount (some r) = refl

  validate-standing :
      (a : Amount)
      → is_block (validate intent a (with_standing ctx s)).outcome
        ≡ is_block (validate intent a ctx).outcome
  unfolding validate denied_by
  validate-standing malformed = refl
  validate-standing (minor n) = ground (arith, screen-standing n (denied_by intent ctx))

  -- Whatever trust, attestation and reputation say, the gate blocks exactly the same payments.
  pub block-standing :
      is_block (evaluate_gate intent (with_standing ctx s)).outcome
      ≡ is_block (evaluate_gate intent ctx).outcome
  unfolding evaluate_gate
  block-standing = validate-standing intent.amount

screen-denied :
    (intent : PaymentIntent) (amount : ℕ) (o : Option DenyRule) (ctx : GateContext)
    → is_some o ≡ true
    → (screen intent amount o ctx).outcome ≡ block
unfolding screen
screen-denied intent amount none ctx h = cc
screen-denied intent amount (some r) ctx h = refl

validate-denied :
    (intent : PaymentIntent) (a : Amount) (ctx : GateContext)
    → is_some (denied_by intent ctx) ≡ true
    → (validate intent a ctx).outcome ≡ block
unfolding validate
validate-denied intent malformed ctx h = refl
validate-denied intent (minor n) ctx h =
    ground (arith, screen-denied intent n (denied_by intent ctx) ctx h)

-- A payment that a deny rule matches is blocked, whatever the mandates, the caps, the trust of the
-- payee and the configuration are.
pub deny_rule-block :
    (intent : PaymentIntent) (ctx : GateContext) (r : DenyRule)
    → In r ctx.deny_rules
    → r.matches intent (deny_context intent ctx) ≡ true
    → (evaluate_gate intent ctx).outcome ≡ block
unfolding evaluate_gate denied_by
deny_rule-block intent ctx r i h =
    validate-denied intent intent.amount ctx
      (find-In (λ r. r.matches intent (deny_context intent ctx)) ctx.deny_rules r i h)
