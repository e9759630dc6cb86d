-- ===== src/EarningDesk.antt =====
-- src/earn/earningDesk.ts: what the agent is paid. The verifier of proofs is an argument. An
-- inbound amount is a whole number of minor units or NaN; a price is whole.
pub mod Income
mod Tests
use agentworth.Prelude.{
  ℕ, String, Bool, true, false, not, Option, none, some, List, [], ◌∷◌, ◌++◌, ltb, str_eq, any,
  if◌then◌else◌,
}
use agentworth.Audit.{
  AuditKeys, AuditEventType, earning_quoted, earning_received, earning_rejected, Payload, quoted,
  received, rejected, InboundPayment, InboundAmount, whole_amount, not_a_number, EarningReason,
  currency_not_accepted, below_minimum, not_offered, no_verifier, proof_not_verified,
  verified_and_recorded, append, next_entry,
}
use agentworth.Store.{append_audit}
use agentworth.Executor.{State}

pub record PriceQuote : Type 0 where
  pub service : String
  pub price_minor : ℕ
  pub currency : String
  pub pay_to : Option String

pub record AcceptancePolicy : Type 0 where
  pub currency : String
  pub min_price_minor : ℕ
  pub allowed_services : Option (List String)

pub record ReceiveResult : Type 0 where
  pub accepted : Bool
  pub reasons : List EarningReason

-- What a verifier answers; it may throw.
pub data Verification : Type 0 where
  confirms denies fails : Verification

pub record EarningDeskDeps : Type 0 where
  pub keys : AuditKeys
  pub policy : AcceptancePolicy
  pub verifier : Option (InboundPayment → Verification)

abbrev pub is_nil : List EarningReason → Bool
is_nil [] = true
is_nil (_ ∷ _) = false

abbrev pub is_offered : Option (List String) → String → Bool
is_offered none service = true
is_offered (some services) service = any (λ s. str_eq s service) services

-- `payment.amountMinor < policy.minPriceMinor`, which is false of NaN.
abbrev pub price_reasons : InboundAmount → ℕ → List EarningReason
price_reasons (whole_amount n) least = if ltb n least then below_minimum n least ∷ [] else []
price_reasons not_a_number least = []

abbrev pub inbound_reasons : InboundPayment → AcceptancePolicy → List EarningReason
inbound_reasons p policy =
    (if str_eq p.currency policy.currency
      then []
      else currency_not_accepted p.currency policy.currency ∷ [])
    ++ price_reasons p.amount_minor policy.min_price_minor
    ++ (if is_offered policy.allowed_services p.service then [] else not_offered p.service ∷ [])

-- `evaluateInbound`
unfoldable pub evaluate_inbound : InboundPayment → AcceptancePolicy → ReceiveResult
evaluate_inbound p policy = record {
  accepted = is_nil (inbound_reasons p policy);
  reasons = inbound_reasons p policy;
}

-- `record`: an entry of the log, mirrored in the store.
unfoldable pub record_earning : AuditKeys → AuditEventType → Payload → ℕ → State → State
record_earning keys type payload ts s = record {
  store = append_audit (next_entry keys s.log type payload ts) s.store;
  log = append keys s.log type payload ts;
}

unfoldable pub quote : EarningDeskDeps → ℕ → String → ℕ → Option String → State → State × PriceQuote
quote d now service price pay_to s = (
  record_earning d.keys earning_quoted (quoted service price d.policy.currency pay_to) now s,
  record { service = service; price_minor = price; currency = d.policy.currency; pay_to = pay_to },
)

-- A refusal that is recorded.
unfoldable pub refuse :
    EarningDeskDeps → ℕ → InboundPayment → List EarningReason → State → State × Option ReceiveResult
refuse d now p reasons s = (
  record_earning d.keys earning_rejected (rejected p reasons) now s,
  some (record { accepted = false; reasons = reasons }),
)

-- The end of `receive`, by what the verifier answers; `none` where it throws.
unfoldable pub settle_inbound :
    EarningDeskDeps → ℕ → InboundPayment → Verification → State → State × Option ReceiveResult
settle_inbound d now p fails s = (s, none)
settle_inbound d now p denies s = refuse d now p (proof_not_verified ∷ []) s
settle_inbound d now p confirms s = (
  record_earning d.keys earning_received (received p.service p.amount_minor p.currency p.payer) now
      s,
  some (record { accepted = true; reasons = verified_and_recorded ∷ [] }),
)

unfoldable pub confirm :
    EarningDeskDeps
    → ℕ
    → InboundPayment
    → Option (InboundPayment → Verification)
    → State
    → State × Option ReceiveResult
confirm d now p none s = refuse d now p (no_verifier ∷ []) s
confirm d now p (some verify) s = settle_inbound d now p (verify p) s

unfoldable pub receive : EarningDeskDeps → ℕ → InboundPayment → State → State × Option ReceiveResult
receive d now p s =
    if (evaluate_inbound p d.policy).accepted
    then confirm d now p d.verifier s
    else refuse d now p (evaluate_inbound p d.policy).reasons s
