-- ===== src/Postgres/Durable.antt =====
-- What the barrier `flush` of src/store/postgresStore.ts promises, after any history of calls and of rounds
-- in which statements were lost.
use agentworth.Prelude.{
  ℕ, zero, suc, ◌≡◌, refl, sym, ap, ◌∙◌, Bool, true, false, some, List, [], ◌∷◌, length,
}
use agentworth.Audit.{AuditEntry}
use agentworth.Store.{Store}
use agentworth.Store.Calls.{Call}
use agentworth.Postgres.{
  Write, System, apply, run, Delivery, answered, lost, unacknowledged, Progress, resolved, again,
  rejected, waiting, deliver, delivered, flush,
}
use agentworth.Postgres.Pending.{
  some_inj, replay, replay-front, Pending, Sound, run-Pending, deliver-Pending,
}

-- The store is opened without `notifications`: it publishes no change, and hears of none. A call, or a
-- round of the loop of `flush`: what comes between two rounds is any call.
pub data Step (same : AuditEntry → AuditEntry → Bool) : System → System → Type 0 where
  call : (c : Call) (s : System) → Sound c s.mirror → Step same s (run false c s).0
  round : (d : Delivery) (s : System) → Step same s (deliver same d s).0

pub data Reach (same : AuditEntry → AuditEntry → Bool) (s : System) : System → Type 0 where
  here : Reach same s s
  next : {t u : System} → Reach same s t → Step same t u → Reach same s u

-- The store that was opened on the tables.
abbrev pub opened : Store → System
opened tables = record { mirror = tables; queue = []; durable = tables }

drained :
    (m s : Store)
    → s ≡ m
    → ◌≡◌ {A = System} (record { mirror = m; queue = []; durable = s }) (opened m)
drained m s e = λ i. record { mirror = m; queue = []; durable = e i }

-- As many statements as there are, and each is answered.
abbrev pub all_answered : ℕ → List Delivery
all_answered zero = []
all_answered (suc n) = answered ∷ all_answered n

module _ (same : AuditEntry → AuditEntry → Bool) (itself : (e : AuditEntry) → same e e ≡ true) where
  -- What `flush` does after a round.
  abbrev after_round : List Delivery → System × Progress → System × Progress
  after_round ds x = elim x.1 [
    | again ↦ flush same ds x.0
    | resolved ↦ (x.0, resolved)
    | rejected ↦ (x.0, rejected)
    | waiting ↦ (x.0, waiting)
  ]

  Reach-Pending : (tables : Store) {s : System} → Reach same (opened tables) s → Pending same s
  unfolding replay
  Reach-Pending tables here = refl
  Reach-Pending tables (next r (call c s fits)) =
      run-Pending same false c s fits (Reach-Pending tables r)
  Reach-Pending tables (next r (round d s)) =
      deliver-Pending same itself d s.queue s.mirror s.durable (Reach-Pending tables r)

  flush-step :
      (d : Delivery) (ds : List Delivery) (x y : System) (p : Progress)
      → deliver same d x ≡ (y, p)
      → flush same (d ∷ ds) x ≡ after_round ds (y, p)
  unfolding flush
  flush-step d ds x y p e = ap (after_round ds) e

  front :
      (w : Write) (ws : List Write) (m s u : Store)
      → apply same w s ≡ some u
      → deliver same answered (record { mirror = m; queue = w ∷ ws; durable = s })
        ≡ (record { mirror = m; queue = ws; durable = u }, again)
  unfolding deliver
  front w ws m s u e =
      ap (λ o. delivered same answered ws o (record { mirror = m; queue = w ∷ ws; durable = s })) e

  flush-resolved :
      (ds : List Delivery) (q : List Write) (m s : Store)
      → replay same q s ≡ some m
      → (flush same ds (record { mirror = m; queue = q; durable = s })).1 ≡ resolved
      → (flush same ds (record { mirror = m; queue = q; durable = s })).0 ≡ opened m
  unfolding flush deliver replay
  flush-resolved [] [] m s h e = drained m s (some_inj h)
  flush-resolved [] (w ∷ ws) m s h e = cc
  flush-resolved (d ∷ ds) [] m s h e = drained m s (some_inj h)
  flush-resolved (lost ∷ ds) (w ∷ ws) m s h e = cc
  flush-resolved (answered ∷ ds) (w ∷ ws) m s h e =
      let (u, done, rest) = replay-front same itself w ws s m h in
      let step =
        flush-step answered ds (record { mirror = m; queue = w ∷ ws; durable = s }) _ _
          (front w ws m s u done) in
      ap (λ x. x.0) step ∙ flush-resolved ds ws m u rest (sym (ap (λ x. x.1) step) ∙ e)
  flush-resolved (unacknowledged ∷ ds) (w ∷ ws) m s h e =
      let (u, done, rest) = replay-front same itself w ws s m h in
      cc (rw (done, flush, deliver) at e)

  flush-answered :
      (q : List Write) (m s : Store)
      → replay same q s ≡ some m
      → flush same (all_answered (length q)) (record { mirror = m; queue = q; durable = s })
        ≡ (opened m, resolved)
  unfolding flush deliver replay
  flush-answered [] m s h = ap (λ x. (x, resolved)) (drained m s (some_inj h))
  flush-answered (w ∷ ws) m s h =
      let (u, done, rest) = replay-front same itself w ws s m h in
      flush-step answered (all_answered (length ws))
        (record { mirror = m; queue = w ∷ ws; durable = s }) _ _ (front w ws m s u done)
      ∙ flush-answered ws m u rest

  -- Whatever was called and whatever was lost since the store was opened on the tables, without
  -- notifications between instances and as the only one that writes them, a flush that resolves leaves the tables as the mirror is and nothing in the queue. The mandates that were revoked
  -- or amended were held, each audit entry had a number that was not taken, and an entry equals itself
  -- in the database.
  pub flush-durable :
      (tables : Store) (s : System) (ds : List Delivery)
      → Reach same (opened tables) s
      → (flush same ds s).1 ≡ resolved
      → (flush same ds s).0 ≡ opened s.mirror
  flush-durable tables s ds r e =
      flush-resolved ds s.queue s.mirror s.durable (Reach-Pending tables r) e

  -- After any such history a flush resolves as soon as the database answers, with as many statements
  -- as the queue holds.
  pub flush-resolves :
      (tables : Store) (s : System)
      → Reach same (opened tables) s
      → flush same (all_answered (length s.queue)) s ≡ (opened s.mirror, resolved)
  flush-resolves tables s r = flush-answered s.queue s.mirror s.durable (Reach-Pending tables r)
