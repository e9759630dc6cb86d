-- ===== src/Audit/Tests.antt =====
-- Runs of the audit log on concrete entries.
use agentworth.Prelude.{◌≡◌, refl, ◌⊎◌, List, [], map}
use agentworth.Audit.{
  AuditEntry, mandate_granted, mandate_revoked, granted, revoked, append, verify, valid,
  verify_from,
}
use agentworth.Audit.Chain.{content, Collision, verify-append, verify-binds}
use agentworth.Examples.{toy_keys, new_year}

abbrev log_of_one : List AuditEntry
log_of_one = append toy_keys [] mandate_granted (granted "m1" "groceries") new_year

abbrev log_of_two : List AuditEntry
log_of_two = append toy_keys log_of_one mandate_revoked (revoked "m1") new_year

log_of_one-valid : verify toy_keys log_of_one ≡ valid
unfolding verify verify_from
log_of_one-valid =
    verify-append toy_keys [] mandate_granted (granted "m1" "groceries") new_year refl refl

log_of_two-valid : verify toy_keys log_of_two ≡ valid
log_of_two-valid =
    verify-append toy_keys log_of_one mandate_revoked (revoked "m1") new_year refl log_of_one-valid

verify-binds_example : (map content log_of_one ≡ map content log_of_one) ⊎ Collision toy_keys
verify-binds_example =
    verify-binds toy_keys log_of_one log_of_one log_of_one-valid log_of_one-valid refl refl
