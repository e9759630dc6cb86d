-- ===== src/Compliance/Oversight/Tests.antt =====
-- Runs of src/compliance/oversight.ts.
use agentworth.Prelude.{◌≡◌, refl, ◌+◌, List, [], ◌∷◌, length, filter}
use agentworth.Types.{minor, card}
use agentworth.Audit.{
  AuditEntry, valid, next_entry, payment_settled, settled, mandate_granted, granted,
}
use agentworth.Examples.{groceries, new_year, toy_keys}
use agentworth.Compliance.Oversight.{
  ReportPeriod, whole_total, deployer_oversight_report, count_log, count_entry, add_to_bucket,
}
use agentworth.Compliance.Oversight.Exact.{
  falls_in, IsExact, spends_in, auto_spends, confirmed_spends, blocked_spends, settled_spends,
  report-IsExact,
}

abbrev january : ReportPeriod
january = record { start = new_year; end = 1_769_904_000_000 }

abbrev log : List AuditEntry
log =
    next_entry toy_keys [] mandate_granted (granted "m1" "groceries") new_year
    ∷ next_entry toy_keys [] payment_settled (settled "p1" "r1" (minor 8000) "GBP" card) new_year
    ∷ next_entry toy_keys [] payment_settled (settled "p2" "r2" (minor 500) "GBP" card) new_year
    ∷ []

settled_total :
    (deployer_oversight_report (λ s. s) log (groceries ∷ []) valid january).monitoring.settled
    ≡ record { count = 2; total_by_currency = ("GBP", whole_total 8500) ∷ [] }
unfolding deployer_oversight_report count_log count_entry add_to_bucket next_entry
    agentworth.Prelude.Map.get agentworth.Prelude.Map.set
settled_total = refl

report-IsExact_example :
    let r = deployer_oversight_report (λ s. s) log (groceries ∷ []) valid january in
    IsExact r.human_oversight.auto_executed (spends_in auto_spends january log)
    × IsExact r.human_oversight.operator_confirmed (spends_in confirmed_spends january log)
    × IsExact r.human_oversight.blocked (spends_in blocked_spends january log)
    × IsExact r.monitoring.settled (spends_in settled_spends january log)
    × (r.record_keeping.entries_in_period ≡ length (filter (λ e. falls_in e.ts january) log))
report-IsExact_example = report-IsExact (λ s. s) january log (groceries ∷ []) valid
