-- ===== src/Sdk/Audited.antt =====
-- The audit log after any history of calls: src/core/executor.ts over src/core/audit.ts.
use agentworth.Prelude.{ℕ, ◌≡◌, refl, ap, ◌∙◌, String, some, [], ◌∷◌, ◌++◌, arith}
use agentworth.Types.{Mandate}
use agentworth.Audit.{AuditEventType, Payload, MandatePatch, valid, verify, append, next_entry}
use agentworth.Audit.Chain.{verify-append}
use agentworth.Store.{
  Store, ok, insert_mandate, revoke_mandate, update_mandate, set_meta, insert_receipt,
}
use agentworth.Executor.{Deps, State, record_event}
use agentworth.Sdk.History.{Invariant, Reach, Reach-keeps, empty_state}

-- The log verifies, and the store mirrors it.
pub record Audited (d : Deps) (s : State) : Type 0 where
  pub verifies : verify d.keys s.log ≡ valid
  pub mirrored : s.store.audit ≡ s.log

audit-update_mandate :
    (id : String) (p : MandatePatch) (st : Store) → (update_mandate id p st).audit ≡ st.audit
unfolding update_mandate
audit-update_mandate id p st = ground arith

audit-revoke_mandate : (id : String) (st : Store) → (revoke_mandate id st).audit ≡ st.audit
unfolding revoke_mandate
audit-revoke_mandate id st = ground arith

audit-insert_mandate :
    (m : Mandate) (st st' : Store) → insert_mandate m st ≡ ok st' → st'.audit ≡ st.audit
unfolding insert_mandate
audit-insert_mandate m st st' h = ground arith

module _ (d : Deps)
    (resolves : d.keys.resolve_key d.keys.current_version ≡ some d.keys.current_key) where
  record_event-Audited :
      (type : AuditEventType) (p : Payload) (ts : ℕ) (s : State)
      → Audited d s
      → Audited d (record_event d type p ts s)
  unfolding record_event append
  record_event-Audited type p ts s h = record {
    verifies = verify-append d.keys s.log type p ts resolves h.verifies;
    mirrored = ap (λ log. log ++ next_entry d.keys s.log type p ts ∷ []) h.mirrored;
  }

  Audited-Invariant : Invariant d (Audited d)
  unfolding set_meta insert_receipt
  Audited-Invariant = record {
    closed = record {
      on_record = record_event-Audited;
      on_meta = λ k v s h. record { verifies = h.verifies; mirrored = h.mirrored };
      on_receipt = λ r s h. record { verifies = h.verifies; mirrored = h.mirrored };
      on_insert = λ si s e f h. record { verifies = h.verifies; mirrored = h.mirrored };
      on_update = λ id u old s e f h. record { verifies = h.verifies; mirrored = h.mirrored };
      on_patch = λ id p s h. record {
        verifies = h.verifies;
        mirrored = audit-update_mandate id p s.store ∙ h.mirrored;
      };
    };
    on_mandate = λ m st s e h. record {
      verifies = h.verifies;
      mirrored = audit-insert_mandate m s.store st e ∙ h.mirrored;
    };
    on_revoke = λ id s h. record {
      verifies = h.verifies;
      mirrored = audit-revoke_mandate id s.store ∙ h.mirrored;
    };
  }

  -- After any history of calls that starts from an empty store, the audit log verifies, and the
  -- store holds the same entries as the log; the current signing key must resolve under its version.
  pub Reach-Audited : (s : State) → Reach d empty_state s → Audited d s
  unfolding verify
  Reach-Audited s r =
      Reach-keeps d (Audited d) Audited-Invariant r (record { verifies = refl; mirrored = refl })
