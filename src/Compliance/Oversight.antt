-- ===== src/Compliance/Oversight.antt =====
-- src/compliance/oversight.ts: the report on a deployer's oversight, from the log and the mandates. An entry
-- has the payload of its type; `trim` is the runtime's.
pub mod Exact
mod Tests
use agentworth.Prelude.{
  ℕ, ◌+◌, String, Bool, true, false, ◌&&◌, Option, none, some, List, [], ◌∷◌, ◌++◌, leb, ltb,
  str_eq, if◌then◌else◌, length, filter, any, get_or, distinct,
}
use agentworth.Prelude.Map.{Map, get, set}
use agentworth.Types.{
  Mandate, Amount, minor, malformed, GateOutcome, auto_execute, confirm_operator, block,
  GateDecision, Reason,
}
use agentworth.Gate.{is_active}
use agentworth.Audit.{
  AuditEventType, mandate_granted, mandate_revoked, payment_settled, gate_decision, Payload,
  decided, reviewed, settled, AuditEntry, Verdict,
}
use agentworth.Enforcement.{sort_texts}

pub record ReportPeriod : Type 0 where
  pub start : ℕ
  pub end : ℕ

-- A total of a bucket. From the first amount on that is not a whole number the sum is not followed: it may
-- be any number.
pub data Total : Type 0 where
  whole_total : ℕ → Total
  unfollowed : Total

pub record SpendBucket : Type 0 where
  pub count : ℕ
  pub total_by_currency : Map Total

pub record HumanOversight : Type 0 where
  pub auto_executed : SpendBucket
  pub operator_confirmed : SpendBucket
  pub blocked : SpendBucket
  pub deny_list_hits : ℕ
  pub deny_list_reasons : List String

pub record Monitoring : Type 0 where
  pub mandates_granted : ℕ
  pub mandates_revoked : ℕ
  pub mandates_active_at_end : ℕ
  pub settled : SpendBucket

pub record RecordKeeping : Type 0 where
  pub total_entries : ℕ
  pub entries_in_period : ℕ
  pub integrity : Verdict

pub record Report : Type 0 where
  pub period : ReportPeriod
  pub human_oversight : HumanOversight
  pub monitoring : Monitoring
  pub record_keeping : RecordKeeping

abbrev pub in_period : ℕ → ReportPeriod → Bool
in_period ts period = leb period.start ts && ltb ts period.end

abbrev pub empty_bucket : SpendBucket
empty_bucket = record { count = 0; total_by_currency = [] }

-- `+` on the total and an amount.
abbrev pub add_amount : Total → Amount → Total
add_amount (whole_total a) (minor b) = whole_total (a + b)
add_amount _ _ = unfollowed

-- What a payload says of a payment, if it does.
abbrev pub Spend : Type 0
Spend = Option (Amount × String)

unfoldable pub add_to_bucket : SpendBucket → Spend → SpendBucket
add_to_bucket b none = record b { count = b.count + 1 }
add_to_bucket b (some (amount, currency)) = record {
  count = b.count + 1;
  total_by_currency =
      set currency (add_amount (get_or (get currency b.total_by_currency) (whole_total 0)) amount)
        b.total_by_currency;
}

-- What the loop has counted.
pub record Tally : Type 0 where
  pub auto_executed : SpendBucket
  pub operator_confirmed : SpendBucket
  pub blocked : SpendBucket
  pub settled : SpendBucket
  pub deny_list_hits : ℕ
  pub deny_reasons : List String
  pub mandates_granted : ℕ
  pub mandates_revoked : ℕ
  pub entries_in_period : ℕ

abbrev pub nothing : Tally
nothing = record {
  auto_executed = empty_bucket;
  operator_confirmed = empty_bucket;
  blocked = empty_bucket;
  settled = empty_bucket;
  deny_list_hits = 0;
  deny_reasons = [];
  mandates_granted = 0;
  mandates_revoked = 0;
  entries_in_period = 0;
}

-- The texts behind `deny-list:` among the reasons.
unfoldable pub deny_texts : (String → String) → List Reason → List String
deny_texts trim [] = []
deny_texts trim (r ∷ rs) =
    let rest = deny_texts trim rs in elim r [ Reason.deny_list text ↦ trim text ∷ rest | _ ↦ rest ]

abbrev spend_of : Payload → Spend
spend_of (settled intent receipt amount currency rail) = some (amount, currency)
spend_of p = none

abbrev count_block : (String → String) → GateDecision → Spend → Tally → Tally
count_block trim v spend t = record t {
  blocked = add_to_bucket t.blocked spend;
  deny_list_hits = t.deny_list_hits + length (deny_texts trim v.reasons);
  deny_reasons = t.deny_reasons ++ deny_texts trim v.reasons;
}

-- The decision of the agent phase has the intent, that of an approval has none.
unfoldable pub count_decision : (String → String) → Payload → Tally → Tally
count_decision trim (decided p) t = elim p.verdict.outcome [
  | block ↦ count_block trim p.verdict (some (p.intent.amount, p.intent.currency)) t
  | auto_execute ↦ record t {
    auto_executed = add_to_bucket t.auto_executed (some (p.intent.amount, p.intent.currency));
  }
  | confirm_operator ↦ t
]
count_decision trim (reviewed p) t = elim p.verdict.outcome [
  | block ↦ count_block trim p.verdict none t
  | auto_execute ↦ record t { operator_confirmed = add_to_bucket t.operator_confirmed none }
  | confirm_operator ↦ t
]
count_decision trim _ t = t

abbrev count_type : (String → String) → AuditEventType → Payload → Tally → Tally
count_type trim mandate_granted p t = record t { mandates_granted = t.mandates_granted + 1 }
count_type trim mandate_revoked p t = record t { mandates_revoked = t.mandates_revoked + 1 }
count_type trim payment_settled p t = record t { settled = add_to_bucket t.settled (spend_of p) }
count_type trim gate_decision p t = count_decision trim p t
count_type trim _ p t = t

unfoldable pub count_entry : (String → String) → ReportPeriod → AuditEntry → Tally → Tally
count_entry trim period e t =
    if in_period e.ts period
    then count_type trim e.type e.payload (record t { entries_in_period = t.entries_in_period + 1 })
    else t

unfoldable pub count_log : (String → String) → ReportPeriod → List AuditEntry → Tally → Tally
count_log trim period [] t = t
count_log trim period (e ∷ es) t = count_log trim period es (count_entry trim period e t)

abbrev pub active_at : ℕ → Mandate → Bool
active_at end m = is_active m.status && ltb m.granted_at end && ltb end m.expires_at

unfoldable pub deployer_oversight_report :
    (String → String) → List AuditEntry → List Mandate → Verdict → ReportPeriod → Report
deployer_oversight_report trim log mandates integrity period =
    let t = count_log trim period log nothing in
    record {
      period = period;
      human_oversight = record {
        auto_executed = t.auto_executed;
        operator_confirmed = t.operator_confirmed;
        blocked = t.blocked;
        deny_list_hits = t.deny_list_hits;
        deny_list_reasons = sort_texts (distinct str_eq t.deny_reasons);
      };
      monitoring = record {
        mandates_granted = t.mandates_granted;
        mandates_revoked = t.mandates_revoked;
        mandates_active_at_end = length (filter (active_at period.end) mandates);
        settled = t.settled;
      };
      record_keeping = record {
        total_entries = length log;
        entries_in_period = t.entries_in_period;
        integrity = integrity;
      };
    }
