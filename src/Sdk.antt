-- ===== src/Sdk.antt =====
-- src/sdk/index.ts: the facade's own writes, and every history of its calls.
pub mod History
pub mod Audited
pub mod Ledger
pub mod Halted
pub mod Budget
mod Tests
use agentworth.Prelude.{ℕ, ◌+◌, ◌*◌, String, Option, none, some, List, get_or}
use agentworth.Prelude.Map.{Map}
use agentworth.Types.{
  Mandate, PayeeScope, RailKind, Period, active, PaymentIntent, Amount, Attestation,
}
use agentworth.Audit.{mandate_granted, mandate_revoked, granted, revoked, MandatePatch}
use agentworth.Store.{ok, throws, insert_mandate, revoke_mandate}
use agentworth.Executor.{
  Deps, State, ExecuteResult, Outcome, returned, raised, store_error, record_event,
}
use agentworth.Executor.Operations.{execute}

pub record GrantInput : Type 0 where
  pub label : String
  pub scope : PayeeScope
  pub currency : String
  pub allowed_rails : List RailKind
  pub per_tx_cap : ℕ
  pub per_period_cap : ℕ
  pub period : Period
  pub expires_at : Option ℕ
  pub expires_in_days : Option ℕ

-- The mandate that `grantMandate` makes; `id` is the caller's or a fresh one.
unfoldable pub new_mandate : ℕ → String → GrantInput → Mandate
new_mandate now id i = record {
  id = id;
  label = i.label;
  scope = i.scope;
  currency = i.currency;
  allowed_rails = i.allowed_rails;
  per_tx_cap = i.per_tx_cap;
  per_period_cap = i.per_period_cap;
  period = i.period;
  granted_at = now;
  expires_at = get_or i.expires_at (now + get_or i.expires_in_days 30 * 86_400_000);
  status = active;
}

unfoldable pub grant : Deps → ℕ → Mandate → State → State × Outcome Mandate
grant d now m s = elim (insert_mandate m s.store) [
  | throws e ↦ (s, raised (store_error e))
  | ok st ↦ (
    record_event d mandate_granted (granted m.id m.label) now (record s { store = st }),
    returned m,
  )
]

unfoldable pub grant_mandate : Deps → ℕ → String → GrantInput → State → State × Outcome Mandate
unfolding new_mandate grant
grant_mandate d now id i s = grant d now (new_mandate now id i) s

unfoldable pub revoke : Deps → ℕ → String → State → State
revoke d now id s =
    record_event d mandate_revoked (revoked id) now (record s { store = revoke_mandate id s.store })

pub record PayInput : Type 0 where
  pub payee : String
  pub amount : Amount
  pub currency : String
  pub rail : RailKind
  pub rationale : String
  pub payee_class : Option String
  pub attestation : Option Attestation
  pub created_at : Option ℕ

-- `pay`: `id` is the caller's or a fresh one.
unfoldable pub pay : Deps → ℕ → String → PayInput → State → State × Outcome ExecuteResult
pay d now id i s =
    execute d now
      (record {
        id = id;
        payee = i.payee;
        payee_class = get_or i.payee_class i.payee;
        amount = i.amount;
        currency = i.currency;
        rail = i.rail;
        rationale = i.rationale;
        created_at = get_or i.created_at now;
      })
      i.attestation s
