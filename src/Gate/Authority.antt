-- ===== src/Gate/Authority.antt =====
-- What an autonomous payment rests on: the proofs about src/core/gate.ts that name a mandate.
use agentworth.Prelude.{
  ℕ, ◌+◌, ◌-◌, ◌≤◌, ◌<◌, ◌≡◌, refl, ◌≢◌, true, false, ◌&&◌, Option, none, some, List, [], ◌∷◌,
  arith, In, find_sound, find-none, find-eq-none,
}
use agentworth.Types.{
  Mandate, Amount, minor, malformed, PaymentIntent, TrustLevel, new, RiskTier, high, auto_execute,
  GateConfig, DenyRule, GateContext, GateDecision, SpendRisk, Reason,
}
use agentworth.Gate.{
  is_live_mandate, covers, denied_by, deny_context, authorizing, trust_in, risk_of, amount_in,
  spent_of, recent_count, elevated, scrutinise, check_caps, authorize, screen, rationale_length,
  validate, evaluate_gate,
}

-- Everything that an autonomous payment of `amount` from the mandate `m` needs.
pub record Authorized (intent : PaymentIntent) (ctx : GateContext) (amount : ℕ) (m : Mandate)
    : Type 0 where
  pub whole : intent.amount ≡ minor amount
  pub positive : 0 < amount
  pub explained : ctx.config.min_rationale_chars ≤ rationale_length intent
  pub undenied :
      (r : DenyRule) → In r ctx.deny_rules → r.matches intent (deny_context intent ctx) ≡ false
  pub granted : In m ctx.mandates
  pub live : is_live_mandate m ctx.now ≡ true
  pub covering : covers m intent amount ctx.convert ≡ true
  pub under_tx_cap : amount_in m intent amount ctx.convert ≤ m.per_tx_cap
  pub under_period_cap :
      spent_of (ctx.period_spend m.id) + amount_in m intent amount ctx.convert ≤ m.per_period_cap
  pub known : trust_in intent ctx ≢ new
  pub unhurried :
      recent_count (ctx.period_spend m.id) ctx.now ctx.config < ctx.config.velocity_max_count
  pub calm : (risk_of intent amount (ctx.period_spend m.id) ctx).tier ≢ high

-- What the decision says of the mandate that it names.
pub record Attributed (d : GateDecision) (ctx : GateContext) (m : Mandate) (amount : ℕ)
    : Type 0 where
  pub names : d.mandate_id ≡ some m.id
  pub leaves : d.remaining ≡ some (m.per_period_cap - spent_of (ctx.period_spend m.id) - amount)

elevated-nil :
    (t : TrustLevel) (n : ℕ) (c : GateConfig) (r : RiskTier)
    → elevated t n c r ≡ []
    → (t ≢ new) × (n < c.velocity_max_count) × (r ≢ high)
unfolding elevated
elevated-nil t n c r h = ground arith

scrutinise-auto :
    (intent : PaymentIntent) (m : Mandate) (risk : SpendRisk) (left : ℕ) (rs : List Reason)
    → (scrutinise intent m risk left rs).outcome ≡ auto_execute
    → (rs ≡ [])
      × ((scrutinise intent m risk left rs).mandate_id ≡ some m.id)
      × ((scrutinise intent m risk left rs).remaining ≡ some left)
unfolding scrutinise
scrutinise-auto intent m risk left [] h = (refl, refl, refl)
scrutinise-auto intent m risk left (r ∷ rs) h = cc

module _ (intent : PaymentIntent) (amount : ℕ) (m : Mandate) (ctx : GateContext) where
  -- The caps and the signals of an autonomous payment.
  abbrev Capped : Type 0
  Capped =
      (amount_in m intent amount ctx.convert ≤ m.per_tx_cap)
      × (spent_of (ctx.period_spend m.id) + amount_in m intent amount ctx.convert
          ≤ m.per_period_cap)
      × (elevated (trust_in intent ctx) (recent_count (ctx.period_spend m.id) ctx.now ctx.config)
            ctx.config (risk_of intent amount (ctx.period_spend m.id) ctx).tier
          ≡ [])

  check_caps-auto :
      (check_caps intent amount m ctx).outcome ≡ auto_execute
      → Capped
        × Attributed (check_caps intent amount m ctx) ctx m (amount_in m intent amount ctx.convert)
  unfolding check_caps
  check_caps-auto h = ground (
    arith,
    scrutinise-auto intent m (risk_of intent amount (ctx.period_spend m.id) ctx)
        (m.per_period_cap
          - spent_of (ctx.period_spend m.id)
          - amount_in m intent amount ctx.convert)
        (elevated (trust_in intent ctx) (recent_count (ctx.period_spend m.id) ctx.now ctx.config)
          ctx.config (risk_of intent amount (ctx.period_spend m.id) ctx).tier),
  )

-- The stages before the caps let an autonomous payment through only one way.
authorize-auto :
    (intent : PaymentIntent) (amount : ℕ) (o : Option Mandate) (ctx : GateContext)
    → (authorize intent amount o ctx).outcome ≡ auto_execute
    → (m : Mandate) × (o ≡ some m)
      × (authorize intent amount o ctx ≡ check_caps intent amount m ctx)
unfolding authorize
authorize-auto intent amount none ctx h = cc
authorize-auto intent amount (some m) ctx h = (m, refl, refl)

screen-auto :
    (intent : PaymentIntent) (amount : ℕ) (o : Option DenyRule) (ctx : GateContext)
    → (screen intent amount o ctx).outcome ≡ auto_execute
    → (o ≡ none)
      × (screen intent amount o ctx ≡ authorize intent amount (authorizing intent amount ctx) ctx)
unfolding screen
screen-auto intent amount none ctx h = (refl, refl)
screen-auto intent amount (some r) ctx h = cc

validate-auto :
    (intent : PaymentIntent) (a : Amount) (ctx : GateContext)
    → (validate intent a ctx).outcome ≡ auto_execute
    → (amount : ℕ) × (a ≡ minor amount)
      × (0 < amount)
      × (ctx.config.min_rationale_chars ≤ rationale_length intent)
      × (validate intent a ctx ≡ screen intent amount (denied_by intent ctx) ctx)
unfolding validate
validate-auto intent malformed ctx h = cc
validate-auto intent (minor n) ctx h = (n, refl, ground arith, ground arith, ground arith)

authorizing_sound :
    (intent : PaymentIntent) (amount : ℕ) (ctx : GateContext) (m : Mandate)
    → authorizing intent amount ctx ≡ some m
    → In m ctx.mandates
      × (is_live_mandate m ctx.now ≡ true)
      × (covers m intent amount ctx.convert ≡ true)
unfolding authorizing
authorizing_sound intent amount ctx m h =
    let found =
      find_sound (λ m. is_live_mandate m ctx.now && covers m intent amount ctx.convert) ctx.mandates
        m h in
    (found.0, ground arith, ground arith)

denied_by-none :
    (intent : PaymentIntent) (ctx : GateContext)
    → denied_by intent ctx ≡ none
    → (r : DenyRule) → In r ctx.deny_rules
    → r.matches intent (deny_context intent ctx) ≡ false
unfolding denied_by
denied_by-none intent ctx h r i =
    find-none (λ r. r.matches intent (deny_context intent ctx)) ctx.deny_rules r h i

-- A payment executes autonomously only inside a live mandate that covers it, under the mandate's
-- caps, to a payee that is not new, below the velocity ceiling, with a risk tier that is not high,
-- and with no deny rule that matches it; the decision names that mandate and what is left of its
-- period budget.
pub auto_execute-Authorized :
    (intent : PaymentIntent) (ctx : GateContext)
    → (evaluate_gate intent ctx).outcome ≡ auto_execute
    → (amount : ℕ) × (m : Mandate) × Authorized intent ctx amount m
      × Attributed (evaluate_gate intent ctx) ctx m (amount_in m intent amount ctx.convert)
unfolding evaluate_gate
auto_execute-Authorized intent ctx h =
    let (n, whole, positive, explained, e₁) = validate-auto intent intent.amount ctx h in
    let h₁ = rw e₁ at h in
    let (clear, e₂) = screen-auto intent n (denied_by intent ctx) ctx h₁ in
    let h₂ = rw e₂ at h₁ in
    let (m, found, e₃) = authorize-auto intent n (authorizing intent n ctx) ctx h₂ in
    let h₃ = rw e₃ at h₂ in
    let (capped, named) = check_caps-auto intent n m ctx h₃ in
    let (granted, live, covering) = authorizing_sound intent n ctx m found in
    let (known, unhurried, calm) = elevated-nil _ _ _ _ capped.2 in
    (
      n,
      m,
      record {
        whole = whole;
        positive = positive;
        explained = explained;
        undenied = denied_by-none intent ctx clear;
        granted = granted;
        live = live;
        covering = covering;
        under_tx_cap = capped.0;
        under_period_cap = capped.1;
        known = known;
        unhurried = unhurried;
        calm = calm;
      },
      rw (e₁, e₂, e₃) named,
    )

elevated-eq-nil :
    (t : TrustLevel) (n : ℕ) (c : GateConfig) (r : RiskTier)
    → t ≢ new
    → n < c.velocity_max_count
    → r ≢ high
    → elevated t n c r ≡ []
unfolding elevated
elevated-eq-nil t n c r known slow calm = ground arith

module _ (intent : PaymentIntent) (ctx : GateContext) (amount : ℕ) (m : Mandate)
    (a : Authorized intent ctx amount m) where
  denied_by-eq-none : denied_by intent ctx ≡ none
  unfolding denied_by
  denied_by-eq-none = find-eq-none _ ctx.deny_rules a.undenied

  check_caps_complete : (check_caps intent amount m ctx).outcome ≡ auto_execute
  unfolding check_caps scrutinise
  check_caps_complete = ground (
    arith,
    elevated-eq-nil (trust_in intent ctx) (recent_count (ctx.period_spend m.id) ctx.now ctx.config)
        ctx.config (risk_of intent amount (ctx.period_spend m.id) ctx).tier a.known a.unhurried
        a.calm,
  )

  -- A payment that meets all of those conditions executes autonomously, when no earlier mandate of
  -- the list is live and covers it too.
  pub auto_execute_complete :
      authorizing intent amount ctx ≡ some m → (evaluate_gate intent ctx).outcome ≡ auto_execute
  unfolding evaluate_gate validate screen authorize
  auto_execute_complete first = ground (arith, denied_by-eq-none, check_caps_complete, first)
