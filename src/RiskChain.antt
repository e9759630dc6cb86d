-- ===== src/RiskChain.antt =====
-- src/core/riskChain.ts: patterns over the recent entries of the audit log. A fraction of a budget is
-- compared by cross-multiplication.
pub mod Alerts
mod Tests
use agentworth.Prelude.{
  ℕ, ◌+◌, ◌-◌, ◌*◌, String, Bool, true, false, ◌&&◌, ◌||◌, not, Option, none, some, List, [], ◌∷◌,
  ◌++◌, map, ltb, leb, ◌==◌, str_eq, if◌then◌else◌, length, filter, any, distinct,
}
use agentworth.Types.{
  RailKind, rail_eq, PaymentIntent, GateOutcome, auto_execute, confirm_operator, block, Amount,
  minor, malformed, minor_units, AlertType, smurfing, probing, splitting, drain_after_grant,
}
use agentworth.Audit.{
  AuditEventType, mandate_granted, gate_decision, Payload, granted, decided, DecisionPayload,
  AuditEntry,
}

pub record ChainOptions : Type 0 where
  pub is_streaming : Bool
  pub window_minutes : ℕ
  pub drain_num : ℕ
  pub drain_den : ℕ
  pub drain_after_grant_minutes : ℕ

abbrev pub default_options : Bool → ChainOptions
default_options streaming = record {
  is_streaming = streaming;
  window_minutes = 15;
  drain_num = 8;
  drain_den = 10;
  drain_after_grant_minutes = 60;
}

-- The payload of a gate decision that holds its intent.
abbrev pub decision_of : AuditEventType → Payload → Option DecisionPayload
decision_of gate_decision (decided d) = some d
decision_of _ _ = none

abbrev pub add_decision :
    Bool → Option DecisionPayload → List DecisionPayload → List DecisionPayload
add_decision true (some d) ds = d ∷ ds
add_decision true none ds = ds
add_decision false _ ds = ds

unfoldable pub recent_decisions : ℕ → List AuditEntry → List DecisionPayload
recent_decisions start [] = []
recent_decisions start (e ∷ es) =
    add_decision (leb start e.ts) (decision_of e.type e.payload) (recent_decisions start es)

abbrev pub is_auto : GateOutcome → Bool
is_auto auto_execute = true
is_auto _ = false

unfoldable pub auto_to : String → DecisionPayload → Bool
auto_to payee d = str_eq d.intent.payee payee && is_auto d.verdict.outcome

unfoldable pub same_payee_auto : PaymentIntent → List DecisionPayload → List DecisionPayload
same_payee_auto intent ds = filter (auto_to intent.payee) ds

-- `new Set(...)` of the rails, of the payees.
abbrev pub distinct_rails : List RailKind → List RailKind
distinct_rails rs = distinct rail_eq rs

abbrev pub distinct_payees : List String → List String
distinct_payees ps = distinct str_eq ps

unfoldable pub is_smurfing : PaymentIntent → List DecisionPayload → Bool
unfolding same_payee_auto auto_to
is_smurfing intent ds = leb 3 (length (same_payee_auto intent ds))

unfoldable pub is_splitting : PaymentIntent → List DecisionPayload → Bool
unfolding same_payee_auto auto_to
is_splitting intent ds =
    let same = same_payee_auto intent ds in
    leb 2 (length same)
    && leb 2 (length (distinct_rails (intent.rail ∷ map (λ d. d.intent.rail) same)))

unfoldable pub is_probing : PaymentIntent → List DecisionPayload → Bool
is_probing intent ds =
    let refused = filter (λ d. not (is_auto d.verdict.outcome)) ds in
    leb 4 (length refused)
    && leb 2 (length (distinct_payees (intent.payee ∷ map (λ d. d.intent.payee) refused)))

abbrev pub later_of : Bool → ℕ → Option ℕ → Option ℕ
later_of false t o = o
later_of true t none = some t
later_of true t (some u) = some (if ltb u t then t else u)

abbrev pub grants : String → AuditEventType → Payload → Bool
grants id mandate_granted (granted m _) = str_eq m id
grants id _ _ = false

-- `latestGrantTsBefore`
unfoldable pub latest_grant : String → ℕ → List AuditEntry → Option ℕ
latest_grant id before [] = none
latest_grant id before (e ∷ es) =
    later_of (grants id e.type e.payload && leb e.ts before) e.ts (latest_grant id before es)

abbrev within : ℕ → ℕ → Option ℕ → Bool
within at limit none = false
within at limit (some grant) = leb (at - grant) limit

-- The payment took most of the budget that was left before it.
abbrev drains : ChainOptions → Amount → Option ℕ → Bool
drains o (minor amount) (some left) =
    ltb 0 (amount + left) && leb ((amount + left) * o.drain_num) (amount * o.drain_den)
drains o _ _ = false

abbrev drained_after_grant : ChainOptions → List AuditEntry → ℕ → Option String → Bool
drained_after_grant o entries at none = false
drained_after_grant o entries at (some id) =
    within at (o.drain_after_grant_minutes * 60_000) (latest_grant id at entries)

abbrev drain_decision : ChainOptions → List AuditEntry → ℕ → Option DecisionPayload → Bool
drain_decision o entries at none = false
drain_decision o entries at (some d) =
    drains o d.intent.amount d.verdict.remaining
    && drained_after_grant o entries at d.verdict.mandate_id

unfoldable pub is_drain : ChainOptions → ℕ → List AuditEntry → AuditEntry → Bool
unfolding latest_grant
is_drain o start entries e =
    leb start e.ts && drain_decision o entries e.ts (decision_of e.type e.payload)

unfoldable pub window_start : ℕ → ChainOptions → ℕ
window_start now o = now - o.window_minutes * 60_000

-- `evaluateRiskChain`: the first pattern that matches.
unfoldable pub evaluate_risk_chain :
    PaymentIntent → List AuditEntry → ℕ → ChainOptions → Option AlertType
unfolding window_start
evaluate_risk_chain intent entries now o =
    let start = window_start now o in
    let ds = recent_decisions (window_start now o) entries in
    if not o.is_streaming && is_smurfing intent ds
    then some smurfing
    else if not o.is_streaming && is_splitting intent ds
    then some splitting
    else if is_probing intent ds
    then some probing
    else if any (is_drain o start entries) entries
    then some drain_after_grant
    else none
