-- ===== src/Gate.antt =====
-- src/core/gate.ts: the pure gate. A stage of `evaluateGate` is a function, in the source's order.
pub mod Authority
pub mod Floor
pub mod Agreement
mod Tests
use agentworth.Prelude.{
  ℕ, ◌+◌, ◌-◌, ◌*◌, ◌≡◌, String, Bool, true, false, ◌&&◌, Option, none, some, List, [], ◌∷◌, ◌++◌,
  map, ltb, leb, ◌==◌, str_eq, if◌then◌else◌, length, filter, find, any, sum, get_or, is_some,
}
use agentworth.Prelude.Int.{pos}
use agentworth.Prelude.Text.{codes, trim, utf16_length}
use agentworth.Risk.{RiskContext, classify_spend_risk}
use agentworth.Types.{
  RailKind, rail_eq, Reversibility, rail_reversibility, PayeeScope, payee_class, allowlist,
  MandateStatus, active, revoked, Mandate, Amount, minor, malformed, PaymentIntent, TrustLevel, new,
  seen, RiskTier, no_risk, high, SpendRisk, GateOutcome, auto_execute, confirm_operator, block,
  Reason, bad_amount, short_rationale, deny_list, no_live_mandate, over_tx_cap, over_period_budget,
  new_payee, velocity_ceiling, elevated_risk, within_mandate, SafeFix, expand_rationale,
  deny_list_bypass, grant_mandate, increase_tx_cap, increase_period_cap, ask_operator, GateDecision,
  GateConfig, PriorSpend, DenyContext, DenyRule, GateContext,
}

abbrev pub is_active : MandateStatus → Bool
is_active active = true
is_active revoked = false

unfoldable pub is_live_mandate : Mandate → ℕ → Bool
is_live_mandate m now = is_active m.status && ltb now m.expires_at

unfoldable pub in_scope : PayeeScope → PaymentIntent → Bool
in_scope (payee_class c) intent = str_eq c intent.payee_class
in_scope (allowlist payees) intent = any (λ p. str_eq p intent.payee) payees

abbrev pub Converter : Type 0
Converter = Option (ℕ → String → String → Option ℕ)

-- `convert?.(amount, from, to)`
abbrev pub converted : Converter → ℕ → String → String → Option ℕ
converted none amount source target = none
converted (some f) amount source target = f amount source target

unfoldable pub covers : Mandate → PaymentIntent → ℕ → Converter → Bool
unfolding in_scope
covers m intent amount convert =
    if any (rail_eq intent.rail) m.allowed_rails && in_scope m.scope intent
    then (if str_eq m.currency intent.currency
        then true
        else is_some (converted convert amount intent.currency m.currency))
    else false

abbrev pub unscored : SpendRisk
unscored = record { tier = no_risk; score = pos 0; reasons = [] }

abbrev pub blocked : List Reason → Option SafeFix → GateDecision
blocked reasons fix = record {
  outcome = block;
  reasons = reasons;
  mandate_id = none;
  risk = unscored;
  remaining = none;
  suggested_fix = fix;
}

-- The provider's reversibility, or the rail kind's.
abbrev pub reversibility_of : PaymentIntent → GateContext → Reversibility
reversibility_of intent ctx = get_or ctx.reversibility (rail_reversibility intent.rail)

abbrev pub deny_context : PaymentIntent → GateContext → DenyContext
deny_context intent ctx = record {
  known_payee = ctx.known_payee;
  reversibility = reversibility_of intent ctx;
}

-- The first deny rule that matches.
unfoldable pub denied_by : PaymentIntent → GateContext → Option DenyRule
denied_by intent ctx = find (λ r. r.matches intent (deny_context intent ctx)) ctx.deny_rules

-- The first mandate that is live and covers the payment.
unfoldable pub authorizing : PaymentIntent → ℕ → GateContext → Option Mandate
authorizing intent amount ctx =
    find (λ m. is_live_mandate m ctx.now && covers m intent amount ctx.convert) ctx.mandates

abbrev pub trust_in : PaymentIntent → GateContext → TrustLevel
trust_in intent ctx = elim ctx.trust_of [
  | none ↦ if ctx.known_payee intent.payee then seen else new
  | some f ↦ f intent.payee
]

unfoldable pub risk_of : PaymentIntent → ℕ → List PriorSpend → GateContext → SpendRisk
risk_of intent amount spend ctx = classify_spend_risk amount (record {
  trust = trust_in intent ctx;
  period_spend = spend;
  config = ctx.config;
  reversibility = reversibility_of intent ctx;
  attestation = ctx.attestation;
  reputation = elim ctx.reputation_of [ none ↦ none | some f ↦ f intent.payee ];
})

unfoldable pub amount_in : Mandate → PaymentIntent → ℕ → Converter → ℕ
amount_in m intent amount convert =
    if str_eq m.currency intent.currency
    then amount
    else get_or (converted convert amount intent.currency m.currency) amount

abbrev pub spent_of : List PriorSpend → ℕ
spent_of spend = sum (map (λ s. s.amount) spend)

-- Payments of the period within the velocity window.
abbrev pub recent_count : List PriorSpend → ℕ → GateConfig → ℕ
recent_count spend now config =
    length (filter (λ s. leb (now - config.velocity_window_minutes * 60_000) s.at) spend)

abbrev pub is_new : TrustLevel → Bool
is_new new = true
is_new _ = false

abbrev pub is_high : RiskTier → Bool
is_high high = true
is_high _ = false

-- What routes a covered payment to the operator.
unfoldable pub elevated : TrustLevel → ℕ → GateConfig → RiskTier → List Reason
elevated trust count config tier =
    (if is_new trust then new_payee ∷ [] else [])
    ++ (if leb config.velocity_max_count count
        then velocity_ceiling count config.velocity_window_minutes ∷ []
        else [])
    ++ (if is_high tier then elevated_risk ∷ [] else [])

-- Stages 5 and 6: elevated signals ask the operator, else the agent may pay.
unfoldable pub scrutinise : PaymentIntent → Mandate → SpendRisk → ℕ → List Reason → GateDecision
scrutinise intent m risk remaining [] = record {
  outcome = auto_execute;
  reasons = within_mandate ∷ [];
  mandate_id = some m.id;
  risk = risk;
  remaining = some remaining;
  suggested_fix = none;
}
scrutinise intent m risk remaining (r ∷ rs) = record {
  outcome = confirm_operator;
  reasons = r ∷ rs;
  mandate_id = some m.id;
  risk = risk;
  remaining = some remaining;
  suggested_fix = some (ask_operator intent.id);
}

-- Stage 4: the caps of the mandate.
unfoldable pub check_caps : PaymentIntent → ℕ → Mandate → GateContext → GateDecision
check_caps intent amount m ctx =
    let spend = ctx.period_spend m.id in
    let risk = risk_of intent amount (ctx.period_spend m.id) ctx in
    let in_mandate = amount_in m intent amount ctx.convert in
    let spent = spent_of spend in
    if ltb m.per_tx_cap in_mandate
    then record {
      outcome = block;
      reasons = over_tx_cap in_mandate m.currency m.per_tx_cap ∷ [];
      mandate_id = some m.id;
      risk = risk;
      remaining = none;
      suggested_fix = some (increase_tx_cap m.id m.per_tx_cap);
    }
    else if ltb m.per_period_cap (spent + in_mandate)
    then record {
      outcome = block;
      reasons = over_period_budget amount m.period spent m.per_period_cap ∷ [];
      mandate_id = some m.id;
      risk = risk;
      remaining = none;
      suggested_fix = some (increase_period_cap m.id m.per_period_cap spent);
    }
    else scrutinise intent m risk (m.per_period_cap - spent - in_mandate) (
        elevated (trust_in intent ctx) (recent_count spend ctx.now ctx.config) ctx.config risk.tier)

-- Stage 3: the authority.
unfoldable pub authorize : PaymentIntent → ℕ → Option Mandate → GateContext → GateDecision
authorize intent amount none ctx = record {
  outcome = confirm_operator;
  reasons = no_live_mandate ∷ [];
  mandate_id = none;
  risk = unscored;
  remaining = none;
  suggested_fix = some (grant_mandate intent.payee_class intent.payee);
}
authorize intent amount (some m) ctx = check_caps intent amount m ctx

-- Stage 2: the deny-list.
unfoldable pub screen : PaymentIntent → ℕ → Option DenyRule → GateContext → GateDecision
screen intent amount (some r) ctx = blocked (deny_list r.reason ∷ []) (some deny_list_bypass)
screen intent amount none ctx = authorize intent amount (authorizing intent amount ctx) ctx

unfoldable pub rationale_length : PaymentIntent → ℕ
unfolding trim utf16_length
rationale_length intent = utf16_length (trim (codes intent.rationale))

-- Stage 1: the boundary.
unfoldable pub validate : PaymentIntent → Amount → GateContext → GateDecision
validate intent malformed ctx = blocked (bad_amount ∷ []) none
validate intent (minor amount) ctx =
    if amount == 0
    then blocked (bad_amount ∷ []) none
    else if ltb (rationale_length intent) ctx.config.min_rationale_chars
    then blocked (short_rationale ctx.config.min_rationale_chars ∷ [])
        (some (expand_rationale ctx.config.min_rationale_chars))
    else screen intent amount (denied_by intent ctx) ctx

unfoldable pub evaluate_gate : PaymentIntent → GateContext → GateDecision
evaluate_gate intent ctx = validate intent intent.amount ctx
