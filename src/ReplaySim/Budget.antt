-- ===== src/ReplaySim/Budget.antt =====
-- What src/obs/replaySim.ts replays is within the budgets of the policy that it tries.
use agentworth.Prelude.{
  ℕ, ◌+◌, ◌≤◌, ◌≡◌, refl, sym, ap, ◌∙◌, subst, ◌⊎◌, inl, inr, ◌↔◌, ◌≢◌, String, Bool, true, false,
  not, none, some, List, [], ◌∷◌, ◌++◌, length, filter, find, find_sound, find-none, In, arith, ltb,
  leb, if◌then◌else◌, get_or, str_eq, eq_iff, eq_refl, Option-cases,
}
use agentworth.Prelude.Map.{get, set}
use agentworth.Types.{
  Mandate, Amount, minor, malformed, PaymentIntent, GateOutcome, auto_execute, confirm_operator,
  block, GateDecision, PriorSpend,
}
use agentworth.Gate.{is_live_mandate, amount_in, spent_of, evaluate_gate}
use agentworth.Gate.Authority.{auto_execute-Authorized}
use agentworth.Enforcement.{outcome_eq}
use agentworth.Audit.{AuditEntry, AuditEventType, gate_decision, Payload, decided, DecisionPayload}
use agentworth.Store.{period_start}
use agentworth.ReplaySim.{
  ReplayCandidate, ReplayRecord, Ledger, counted_spend, spend_in, candidate_context,
  settle_replayed, replay_step, replay_record, agent_decision, decisions_in, replay_all,
  replay_audit,
}

-- What was paid at an instant or after it.
pub paid_since : ℕ → List PriorSpend → ℕ
paid_since t [] = 0
paid_since t (s ∷ ss) = let rest = paid_since t ss in if ltb s.at t then rest else s.amount + rest

-- A payment of `n` that the mandate `m` of the candidate pays for, after what it has paid.
pub record Paid (c : ReplayCandidate) (ledger : Ledger) (intent : PaymentIntent) (n : ℕ)
    (m : Mandate) : Type 0 where
  pub whole : intent.amount ≡ minor n
  pub granted : In m c.mandates
  pub live : is_live_mandate m intent.created_at ≡ true
  pub under_tx_cap : n ≤ m.per_tx_cap
  pub under_period_cap :
      paid_since (period_start intent.created_at m.period) (get_or (get m.id ledger) []) + n
      ≤ m.per_period_cap

-- What a replayed payment does to what the candidate has paid.
pub data Settles (c : ReplayCandidate) (ledger : Ledger) (intent : PaymentIntent)
    : GateOutcome → Ledger → Type 0 where
  paid :
      (n : ℕ) (m : Mandate)
      → Paid c ledger intent n m
      → Settles c ledger intent auto_execute (
          set m.id
            (get_or (get m.id ledger) [] ++ record { amount = n; at = intent.created_at } ∷ [])
            ledger)
  asked : Settles c ledger intent confirm_operator ledger
  refused : Settles c ledger intent block ledger

-- A record of a decision.
pub record Records (p : DecisionPayload) (r : ReplayRecord) : Type 0 where
  pub intent_id : r.intent_id ≡ p.intent.id
  pub original : r.original ≡ p.verdict.outcome
  pub unchanged : (r.changed ≡ false) ↔ (r.original ≡ r.replayed)

-- An entry of a decision of the agent's phase.
abbrev pub Decides : AuditEntry → DecisionPayload → Type 0
Decides e p = (e.type ≡ gate_decision) × (e.payload ≡ decided p)

-- Each decision of the log has its record, in their order, and is paid after those before it; the other
-- entries have none.
pub data Replays (c : ReplayCandidate) : Ledger → List AuditEntry → List ReplayRecord → Type 0 where
  done : (ledger : Ledger) → Replays c ledger [] []
  skip :
      (ledger : Ledger) (e : AuditEntry) (es : List AuditEntry) (rs : List ReplayRecord)
      → ((p : DecisionPayload) → ¬ Decides e p)
      → Replays c ledger es rs
      → Replays c ledger (e ∷ es) rs
  next :
      (ledger after : Ledger) (e : AuditEntry) (p : DecisionPayload) (r : ReplayRecord)
      (es : List AuditEntry) (rs : List ReplayRecord)
      → Decides e p
      → Records p r
      → Settles c ledger p.intent r.replayed after
      → Replays c after es rs
      → Replays c ledger (e ∷ es) (r ∷ rs)

agent_decision-some :
    (t : AuditEventType) (x : Payload) (p : DecisionPayload)
    → agent_decision t x ≡ some p
    → (t ≡ gate_decision) × (x ≡ decided p)
agent_decision-some gate_decision (decided q) p h = (refl, cc)
agent_decision-some gate_decision x p h = cc
agent_decision-some t x p h = cc

agent_decision-none :
    (e : AuditEntry)
    → agent_decision e.type e.payload ≡ none
    → (p : DecisionPayload) → ¬ Decides e p
agent_decision-none e h p d = cc (rw (d.0, d.1) at h)

-- A candidate names each mandate by an id of its own.
abbrev pub Distinct : List Mandate → Type 0
Distinct ms = (m n : Mandate) → In m ms → In n ms → m.id ≡ n.id → m ≡ n

find-own :
    (ms : List Mandate) (m : Mandate)
    → Distinct ms
    → In m ms
    → find (λ k. str_eq k.id m.id) ms ≡ some m
find-own ms m own i = elim (Option-cases (find (λ k. str_eq k.id m.id) ms)) [
  | inl e ↦ cc (find-none (λ k. str_eq k.id m.id) ms m e i, eq_refl m.id)
  | inr (k, e) ↦
      let (j, same) = find_sound (λ (k : Mandate). str_eq k.id m.id) ms k e in
      e ∙ ap some (own k m j i ((eq_iff k.id m.id).0 same))
]

spent-paid_since :
    (t : ℕ) (ss : List PriorSpend) → spent_of (filter (λ s. leb t s.at) ss) ≡ paid_since t ss
unfolding paid_since
spent-paid_since t [] = refl
spent-paid_since t (s ∷ ss) = ground (arith, spent-paid_since t ss)

counted_spend-paid_since :
    (c : ReplayCandidate) (at : ℕ) (m : Mandate) (spend : List PriorSpend)
    → Distinct c.mandates
    → In m c.mandates
    → spent_of (counted_spend c at m.id spend) ≡ paid_since (period_start at m.period) spend
unfolding counted_spend
counted_spend-paid_since c at m spend own i =
    rw (find-own c.mandates m own i, counted_spend)
      (spent-paid_since (period_start at m.period) spend)

amount_in-none : (m : Mandate) (intent : PaymentIntent) (n : ℕ) → amount_in m intent n none ≡ n
unfolding amount_in
amount_in-none m intent n = ground arith

outcome_cases : (o : GateOutcome) → (o ≡ auto_execute) ⊎ ((o ≡ confirm_operator) ⊎ (o ≡ block))
outcome_cases auto_execute = inl refl
outcome_cases confirm_operator = inr (inl refl)
outcome_cases block = inr (inr refl)

outcome_eq-same : (a b : GateOutcome) → (not (outcome_eq a b) ≡ false) ↔ (a ≡ b)
outcome_eq-same a b = (λ h. ground (arith, h), λ h. ground (arith, h))

settle_replayed-auto :
    (a : Amount) (n at : ℕ) (id : String) (d : GateDecision) (ledger : Ledger)
    → a ≡ minor n
    → d.outcome ≡ auto_execute
    → d.mandate_id ≡ some id
    → settle_replayed a at d ledger
      ≡ set id (spend_in ledger id ++ record { amount = n; at = at } ∷ []) ledger
unfolding settle_replayed
settle_replayed-auto a n at id d ledger whole e named = rw (whole, settle_replayed, e, named) refl

settle_replayed-held :
    (a : Amount) (at : ℕ) (d : GateDecision) (ledger : Ledger)
    → d.outcome ≢ auto_execute
    → settle_replayed a at d ledger ≡ ledger
unfolding settle_replayed
settle_replayed-held (minor n) at d ledger h = elim (outcome_cases d.outcome) [
  | inl e ↦ absurd (h e)
  | inr (inl e) ↦ rw (settle_replayed, e) refl
  | inr (inr e) ↦ rw (settle_replayed, e) refl
]
settle_replayed-held malformed at d ledger h = refl

module _ (c : ReplayCandidate) (ledger : Ledger) (intent : PaymentIntent) (d : GateDecision) where
  settled_alike :
      (o : GateOutcome)
      → d.outcome ≡ o
      → (o ≡ auto_execute
          → (n : ℕ) × (m : Mandate) × Paid c ledger intent n m × (d.mandate_id ≡ some m.id))
      → Settles c ledger intent o (settle_replayed intent.amount intent.created_at d ledger)
  unfolding settle_replayed
  settled_alike auto_execute e h =
      let (n, m, rests, named) = h refl in
      subst (Settles c ledger intent auto_execute)
        (sym (
          settle_replayed-auto intent.amount n intent.created_at m.id d ledger rests.whole e named))
        (Settles.paid n m rests)
  settled_alike confirm_operator e h =
      rw (settle_replayed-held intent.amount intent.created_at d ledger (λ f. cc (e, f)))
        Settles.asked
  settled_alike block e h =
      rw (settle_replayed-held intent.amount intent.created_at d ledger (λ f. cc (e, f)))
        Settles.refused

module _ (c : ReplayCandidate) (own : Distinct c.mandates) where
  replay_step-Settles :
      (ledger : Ledger) (p : DecisionPayload)
      → Settles c ledger p.intent (replay_record c ledger p).replayed (replay_step c ledger p)
  unfolding replay_step replay_record
  replay_step-Settles ledger p =
      let ctx = candidate_context c ledger p in
      settled_alike c ledger p.intent (evaluate_gate p.intent ctx) _ refl (λ h.
        let (n, m, a, named) = auto_execute-Authorized p.intent ctx h in
        let amount = amount_in-none m p.intent n in
        let spent =
          counted_spend-paid_since c p.intent.created_at m (spend_in ledger m.id) own a.granted in
        (
          n,
          m,
          record {
            whole = a.whole;
            granted = a.granted;
            live = a.live;
            under_tx_cap = subst (λ k. k ≤ m.per_tx_cap) amount a.under_tx_cap;
            under_period_cap =
                subst (λ k. k + n ≤ m.per_period_cap) spent
                  (subst (λ k. spent_of (ctx.period_spend m.id) + k ≤ m.per_period_cap) amount
                    a.under_period_cap);
          },
          named.names,
        ))

  replay_all-Replays :
      (ledger : Ledger) (es : List AuditEntry)
      → Replays c ledger es (replay_all c ledger (decisions_in es)).0
  unfolding replay_all replay_record decisions_in
  replay_all-Replays ledger [] = Replays.done ledger
  replay_all-Replays ledger (e ∷ es) = elim (Option-cases (agent_decision e.type e.payload)) [
    | inl other ↦
        rw (other, decisions_in)
          (Replays.skip ledger e es _ (agent_decision-none e other) (replay_all-Replays ledger es))
    | inr (p, found) ↦
        rw (found, decisions_in, replay_all)
          (Replays.next ledger (replay_step c ledger p) e p (replay_record c ledger p) es
            (replay_all c (replay_step c ledger p) (decisions_in es)).0
            (agent_decision-some e.type e.payload p found)
            (record {
              intent_id = refl;
              original = refl;
              unchanged = outcome_eq-same p.verdict.outcome (replay_record c ledger p).replayed;
            })
            (replay_step-Settles ledger p) (replay_all-Replays (replay_step c ledger p) es))
  ]

length-filter : {A : Type 0} (p : A → Bool) (xs : List A) → length (filter p xs) ≤ length xs
length-filter p [] = omega arith
length-filter p (x ∷ xs) = ground (arith, length-filter p xs)

-- A report has one record of each decision of the agent's phase, in the log's order, and its totals
-- are those of its records. A record says that a decision is changed where its outcome is another, and
-- that a payment is executed only where its amount is whole and a mandate of the candidate, live at
-- the time, has it under its cap for a payment and, with what the report had that mandate execute
-- since the start of its period, under its cap for the period. The candidate's mandates have ids of
-- their own.
pub replay_audit-Replays :
    (entries : List AuditEntry) (c : ReplayCandidate)
    → Distinct c.mandates
    → let r = replay_audit entries c in
      Replays c [] entries r.records
      × (r.total ≡ length r.records)
      × (r.changed ≡ length (filter (λ x. x.changed) r.records))
      × (r.changed + r.unchanged ≡ r.total)
unfolding replay_audit
replay_audit-Replays entries c own =
    let records = (replay_all c [] (decisions_in entries)).0 in
    let fewer = length-filter (λ (x : ReplayRecord). x.changed) records in
    (replay_all-Replays c own [] entries, refl, refl, omega (arith, fewer))
