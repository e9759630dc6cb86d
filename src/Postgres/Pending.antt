-- ===== src/Postgres/Pending.antt =====
-- What the queue of src/store/postgresStore.ts has pending: whatever is lost on the way, the statements that
-- are left make of the tables what the mirror is.
use agentworth.Prelude.{
  ◌≡◌, refl, sym, ap, ◌∙◌, String, Bool, true, false, Option, none, some, List, [], ◌∷◌, ◌++◌, ◌==◌,
  eq_refl, find, arith, Bool-cases, Option-cases, inl, inr, is_some, subst,
}
use agentworth.Prelude.Map.{Map, get, set, get-set}
use agentworth.Types.{Mandate, revoked}
use agentworth.Audit.{AuditEntry, MandatePatch}
use agentworth.Store.{
  Store, StoredIntent, IntentUpdate, Meta, Stored, ok, throws, updated, patch_mandate,
}
use agentworth.Store
use agentworth.Store.Calls.{Call}
use agentworth.Postgres.{
  EntityKind, Write, put_meta, put_mandate, put_intent, put_receipt, put_entry, notice, System,
  put_entry_in, apply, notices, persist_mandate, persist_intent, run, Delivery, answered, lost,
  unacknowledged, deliver,
}

set-set : {V : Type 0} (k : String) (v w : V) (m : Map V) → set k v (set k w m) ≡ set k v m
unfolding set
set-set k v w [] = rw (eq_refl k) refl
set-set k v w ((j, u) ∷ m) = ground (arith, set-set k v w m)

set_same : {V : Type 0} (k : String) (v : V) (m : Map V) → get k (set k v m) ≡ some v
set_same k v m = get-set k k v m ∙ rw (eq_refl k) refl

pub some_inj : {A : Type 0} {a b : A} → some a ≡ some b → a ≡ b
some_inj h = cc

find-end :
    (e : AuditEntry) (log : List AuditEntry)
    → find (λ x. x.seq == e.seq) log ≡ none
    → find (λ x. x.seq == e.seq) (log ++ e ∷ []) ≡ some e
find-end e [] h = ground arith
find-end e (x ∷ log) h = ground (arith, find-end e log)

module _ (same : AuditEntry → AuditEntry → Bool) (itself : (e : AuditEntry) → same e e ≡ true) where
  put_entry_twice :
      (e : AuditEntry) (s t : Store) (o : Option AuditEntry)
      → find (λ x. x.seq == e.seq) s.audit ≡ o
      → put_entry_in same e o s ≡ some t
      → put_entry_in same e (find (λ x. x.seq == e.seq) t.audit) t ≡ some t
  put_entry_twice e s t none fresh h =
      subst (λ u. put_entry_in same e (find (λ x. x.seq == e.seq) u.audit) u ≡ some u) (some_inj h)
        (rw (find-end e s.audit fresh, itself e) refl)
  put_entry_twice e s t (some held) there h = elim (Bool-cases (same held e)) [
    | inl equal ↦
        subst (λ u. put_entry_in same e (find (λ x. x.seq == e.seq) u.audit) u ≡ some u)
          (some_inj (rw equal at h)) (rw (there, equal) refl)
    | inr fork ↦ cc (rw fork at h)
  ]

  -- A statement that is carried out again changes nothing.
  apply-twice : (w : Write) (s t : Store) → apply same w s ≡ some t → apply same w t ≡ some t
  unfolding apply
  apply-twice (put_meta k v) s t h =
      subst (λ u. apply same (put_meta k v) u ≡ some u) (some_inj h)
        (ap (λ x. some (record s { meta = x })) (set-set k v v s.meta))
  apply-twice (put_mandate id none) s t h = cc
  apply-twice (put_mandate id (some m)) s t h =
      subst (λ u. apply same (put_mandate id (some m)) u ≡ some u) (some_inj h)
        (ap (λ x. some (record s { mandates = x })) (set-set id m m s.mandates))
  apply-twice (put_intent id none) s t h = cc
  apply-twice (put_intent id (some si)) s t h =
      subst (λ u. apply same (put_intent id (some si)) u ≡ some u) (some_inj h)
        (ap (λ x. some (record s { intents = x })) (set-set id si si s.intents))
  apply-twice (put_receipt r) s t h =
      subst (λ u. apply same (put_receipt r) u ≡ some u) (some_inj h)
        (ap (λ x. some (record s { receipts = x })) (set-set r.id r r s.receipts))
  apply-twice (put_entry e) s t h =
      put_entry_twice e s t (find (λ x. x.seq == e.seq) s.audit) refl h
  apply-twice (notice kind id) s t h = refl

-- The tables after the statements of a queue.
unfoldable pub replay : (AuditEntry → AuditEntry → Bool) → List Write → Store → Option Store
replay same [] s = some s
replay same (w ∷ ws) s = elim (apply same w s) [ none ↦ none | some t ↦ replay same ws t ]

-- What is durable becomes what the mirror is, once the queue is carried out.
abbrev pub Pending : (AuditEntry → AuditEntry → Bool) → System → Type 0
Pending same s = replay same s.queue s.durable ≡ some s.mirror

-- A mandate that is revoked or amended is one that is held, and an audit entry has a number that no
-- entry has.
abbrev pub Sound : Call → Store → Type 0
Sound (Call.revoke_mandate id) s = is_some (get id s.mandates) ≡ true
Sound (Call.update_mandate id p) s = is_some (get id s.mandates) ≡ true
Sound (Call.append_audit e) s = find (λ x. x.seq == e.seq) s.audit ≡ none
Sound c s = Unit

module _ (same : AuditEntry → AuditEntry → Bool) where
  replay-cons :
      (w : Write) (ws : List Write) (s t : Store)
      → apply same w s ≡ some t
      → replay same (w ∷ ws) s ≡ replay same ws t
  unfolding replay
  replay-cons w ws s t h = rw (h, replay) refl

  replay-append :
      (q ws : List Write) (s t u : Store)
      → replay same q s ≡ some t
      → replay same ws t ≡ some u
      → replay same (q ++ ws) s ≡ some u
  unfolding replay
  replay-append [] ws s t u h k = subst (λ x. replay same ws x ≡ some u) (sym (some_inj h)) k
  replay-append (w ∷ q) ws s t u h k = elim (Option-cases (apply same w s)) [
    | inl e ↦ cc (rw (e, replay) at h)
    | inr (x, e) ↦ rw (e, replay) (replay-append q ws x t u (rw (e, replay) at h) k)
  ]

  -- A notice changes no table.
  replay-notices :
      (p : Bool) (kind : EntityKind) (id : String) (s : Store)
      → replay same (notices p kind id) s ≡ some s
  unfolding replay apply
  replay-notices true kind id s = refl
  replay-notices false kind id s = refl

  -- A statement with its notice.
  replay-write :
      (w : Write) (p : Bool) (kind : EntityKind) (id : String) (s t : Store)
      → apply same w s ≡ some t
      → replay same (w ∷ notices p kind id) s ≡ some t
  replay-write w p kind id s t h =
      replay-cons w (notices p kind id) s t h ∙ replay-notices p kind id t

  put-mandate :
      (p : Bool) (id : String) (m : Mandate) (s : System)
      → Pending same s
      → Pending same (
          persist_mandate p id
            (record s { mirror = record s.mirror { mandates = set id m s.mirror.mandates } }))
  unfolding persist_mandate apply
  put-mandate p id m s h = rw (set_same id m s.mirror.mandates) (
      replay-append s.queue _ s.durable s.mirror _ h
        (replay-write (put_mandate id (some m)) p EntityKind.mandate id s.mirror _ refl))

  put-intent :
      (p : Bool) (id : String) (si : StoredIntent) (s : System)
      → Pending same s
      → Pending same (
          persist_intent p id
            (record s { mirror = record s.mirror { intents = set id si s.mirror.intents } }))
  unfolding persist_intent apply
  put-intent p id si s h = rw (set_same id si s.mirror.intents) (
      replay-append s.queue _ s.durable s.mirror _ h
        (replay-write (put_intent id (some si)) p EntityKind.intent id s.mirror _ refl))

  insert_mandate-Pending :
      (p : Bool) (m : Mandate) (s : System)
      → Pending same s
      → Pending same (run p (Call.insert_mandate m) s).0
  unfolding run Store.insert_mandate replay
  insert_mandate-Pending p m s h = elim (Option-cases (get m.id s.mirror.mandates)) [
    | inl fresh ↦ rw (fresh, run, Store.insert_mandate) (put-mandate p m.id m s h)
    | inr (n, held) ↦ rw (held, run, Store.insert_mandate) h
  ]

  revoke_mandate-Pending :
      (p : Bool) (id : String) (s : System)
      → is_some (get id s.mirror.mandates) ≡ true
      → Pending same s
      → Pending same (run p (Call.revoke_mandate id) s).0
  unfolding run Store.revoke_mandate replay
  revoke_mandate-Pending p id s known h = elim (Option-cases (get id s.mirror.mandates)) [
    | inl absent ↦ cc (rw absent at known)
    | inr (m, held) ↦
        rw (held, run, Store.revoke_mandate) (put-mandate p id (record m { status = revoked }) s h)
  ]

  update_mandate-Pending :
      (p : Bool) (id : String) (patch : MandatePatch) (s : System)
      → is_some (get id s.mirror.mandates) ≡ true
      → Pending same s
      → Pending same (run p (Call.update_mandate id patch) s).0
  unfolding run Store.update_mandate replay
  update_mandate-Pending p id patch s known h = elim (Option-cases (get id s.mirror.mandates)) [
    | inl absent ↦ cc (rw absent at known)
    | inr (m, held) ↦
        rw (held, run, Store.update_mandate) (put-mandate p id (patch_mandate m patch id) s h)
  ]

  insert_intent-Pending :
      (p : Bool) (si : StoredIntent) (s : System)
      → Pending same s
      → Pending same (run p (Call.insert_intent si) s).0
  unfolding run Store.insert_intent replay
  insert_intent-Pending p si s h = elim (Option-cases (get si.intent.id s.mirror.intents)) [
    | inl fresh ↦ rw (fresh, run, Store.insert_intent) (put-intent p si.intent.id si s h)
    | inr (n, held) ↦ rw (held, run, Store.insert_intent) h
  ]

  update_intent-Pending :
      (p : Bool) (id : String) (u : IntentUpdate) (s : System)
      → Pending same s
      → Pending same (run p (Call.update_intent id u) s).0
  unfolding run Store.update_intent replay
  update_intent-Pending p id u s h = elim (Option-cases (get id s.mirror.intents)) [
    | inl absent ↦ rw (absent, run, Store.update_intent) h
    | inr (si, held) ↦ rw (held, run, Store.update_intent) (put-intent p id (updated si u) s h)
  ]

  append_audit-Pending :
      (p : Bool) (e : AuditEntry) (s : System)
      → find (λ x. x.seq == e.seq) s.mirror.audit ≡ none
      → Pending same s
      → Pending same (run p (Call.append_audit e) s).0
  unfolding run apply replay
  append_audit-Pending p e s fresh h =
      replay-append s.queue (put_entry e ∷ []) s.durable s.mirror _ h (
        replay-cons (put_entry e) [] s.mirror (Store.append_audit e s.mirror)
          (ap (λ o. put_entry_in same e o s.mirror) fresh))

  -- A call leaves what is pending pending, with what it has written.
  pub run-Pending :
      (p : Bool) (c : Call) (s : System)
      → Sound c s.mirror
      → Pending same s
      → Pending same (run p c s).0
  unfolding run Store.set_meta Store.insert_receipt apply
  run-Pending p (Call.insert_mandate m) s fits h = insert_mandate-Pending p m s h
  run-Pending p (Call.revoke_mandate id) s fits h = revoke_mandate-Pending p id s fits h
  run-Pending p (Call.update_mandate id patch) s fits h = update_mandate-Pending p id patch s fits h
  run-Pending p (Call.insert_intent si) s fits h = insert_intent-Pending p si s h
  run-Pending p (Call.update_intent id u) s fits h = update_intent-Pending p id u s h
  run-Pending p (Call.append_audit e) s fits h = append_audit-Pending p e s fits h
  run-Pending p (Call.set_meta k v) s fits h =
      replay-append s.queue _ s.durable s.mirror _ h
        (replay-write (put_meta k v) p EntityKind.meta k s.mirror _ refl)
  run-Pending p (Call.insert_receipt r) s fits h =
      replay-append s.queue _ s.durable s.mirror _ h
        (replay-write (put_receipt r) p EntityKind.receipt r.id s.mirror _ refl)
  run-Pending p (Call.get_meta k) s fits h = h
  run-Pending p (Call.get_mandate id) s fits h = h
  run-Pending p Call.list_mandates s fits h = h
  run-Pending p (Call.list_active_mandates now) s fits h = h
  run-Pending p (Call.get_intent id) s fits h = h
  run-Pending p Call.list_pending_intents s fits h = h
  run-Pending p (Call.get_receipt id) s fits h = h
  run-Pending p (Call.period_spend id now) s fits h = h
  run-Pending p (Call.knows_payee payee) s fits h = h
  run-Pending p (Call.payee_settled_count payee) s fits h = h
  run-Pending p Call.load_audit s fits h = h

module _ (same : AuditEntry → AuditEntry → Bool) (itself : (e : AuditEntry) → same e e ≡ true) where
  pub replay-front :
      (w : Write) (ws : List Write) (s t : Store)
      → replay same (w ∷ ws) s ≡ some t
      → (u : Store) × (apply same w s ≡ some u) × (replay same ws u ≡ some t)
  unfolding replay
  replay-front w ws s t h = elim (Option-cases (apply same w s)) [
    | inl e ↦ cc (rw (e, replay) at h)
    | inr (u, e) ↦ (u, e, rw (e, replay) at h)
  ]

  -- Whatever becomes of the statement that is sent, no later one is lost.
  pub deliver-Pending :
      (d : Delivery) (q : List Write) (m s : Store)
      → replay same q s ≡ some m
      → Pending same (deliver same d (record { mirror = m; queue = q; durable = s })).0
  unfolding deliver
  deliver-Pending d [] m s h = h
  deliver-Pending lost (w ∷ ws) m s h = h
  deliver-Pending answered (w ∷ ws) m s h =
      let (u, e, rest) = replay-front w ws s m h in rw (e, deliver) rest
  deliver-Pending unacknowledged (w ∷ ws) m s h =
      let (u, e, rest) = replay-front w ws s m h in
      rw (e, deliver) (replay-cons same w ws u u (apply-twice same itself w s u e) ∙ rest)
