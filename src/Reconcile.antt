-- ===== src/Reconcile.antt =====
-- src/finance/reconcile.ts: what the agent settled against the lines of an account's statement. Amounts are
-- whole.
pub mod Partition
mod Tests
use agentworth.Prelude.{
  ℕ, ◌-◌, ◌*◌, String, Bool, true, false, ◌&&◌, Option, none, some, List, [], ◌∷◌, leb, ltb, ◌==◌,
  str_eq, if◌then◌else◌, get_or,
}

pub record StatementLine : Type 0 where
  pub amount_minor : ℕ
  pub currency : String
  pub descriptor : String
  pub at : ℕ

pub record SettledPayment : Type 0 where
  pub intent_id : String
  pub payee : String
  pub amount_minor : ℕ
  pub currency : String
  pub at : ℕ

pub record ReconResult : Type 0 where
  pub matched : List (SettledPayment × StatementLine)
  pub unmatched_payments : List SettledPayment
  pub unmatched_statement : List StatementLine

abbrev pub default_window_ms : ℕ
default_window_ms = 259_200_000

-- `Math.abs(a - b)`
abbrev pub distance : ℕ → ℕ → ℕ
distance a b = if ltb a b then b - a else a - b

unfoldable pub is_match : ℕ → SettledPayment → StatementLine → Bool
is_match window p l =
    str_eq l.currency p.currency
    && l.amount_minor == p.amount_minor
    && leb (distance l.at p.at) window

-- `findIndex` and `splice`: the first line of a kind, and the lines without it.
unfoldable pub take_first :
    (StatementLine → Bool) → List StatementLine → Option (StatementLine × List StatementLine)
take_first p [] = none
take_first p (l ∷ ls) =
    let rest = take_first p ls in
    if p l then some (l, ls) else elim rest [ none ↦ none | some (m, ms) ↦ some (m, l ∷ ms) ]

abbrev pub with_match : SettledPayment → StatementLine → ReconResult → ReconResult
with_match p l r = record r { matched = (p, l) ∷ r.matched }

abbrev pub without_match : SettledPayment → ReconResult → ReconResult
without_match p r = record r { unmatched_payments = p ∷ r.unmatched_payments }

unfoldable pub reconcile_all : ℕ → List SettledPayment → List StatementLine → ReconResult
reconcile_all window [] lines = record {
  matched = [];
  unmatched_payments = [];
  unmatched_statement = lines;
}
reconcile_all window (p ∷ ps) lines = elim (take_first (is_match window p) lines) [
  | none ↦ without_match p (reconcile_all window ps lines)
  | some (l, rest) ↦ with_match p l (reconcile_all window ps rest)
]

unfoldable pub reconcile : List SettledPayment → List StatementLine → Option ℕ → ReconResult
reconcile payments lines window = reconcile_all (get_or window default_window_ms) payments lines
