-- ===== src/Compliance/Oversight/Exact.antt =====
-- The sections of the report of src/compliance/oversight.ts, described entry by entry.
use agentworth.Prelude.{
  ℕ, ◌+◌, ◌≡◌, refl, sym, ap, ◌∙◌, inl, inr, String, Option, none, some, List, [], ◌∷◌, ◌++◌,
  str_eq, eq_iff, if◌then◌else◌, length, filter, get_or, arith, ltb, Bool, not, ◌&&◌, Bool-cases,
}
use agentworth.Prelude.Map.{Map, get, get-set}
use agentworth.Types.{Mandate, Amount, minor, malformed, auto_execute, block}
use agentworth.Audit.{
  AuditEventType, mandate_granted, payment_settled, gate_decision, Payload, decided, reviewed,
  settled, AuditEntry, Verdict,
}
use agentworth.Compliance.Oversight.{
  ReportPeriod, SpendBucket, Total, whole_total, unfollowed, in_period, empty_bucket, add_amount,
  Spend, add_to_bucket, Tally, nothing, count_decision, count_type, count_entry, count_log,
  deployer_oversight_report,
}

-- The payments that an entry of a type tells of, for each section.
abbrev pub auto_spends : AuditEventType → Payload → List Spend
auto_spends gate_decision (decided p) = elim p.verdict.outcome [
  | auto_execute ↦ some (p.intent.amount, p.intent.currency) ∷ []
  | _ ↦ []
]
auto_spends _ _ = []

abbrev pub confirmed_spends : AuditEventType → Payload → List Spend
confirmed_spends gate_decision (reviewed p) = elim p.verdict.outcome [
  | auto_execute ↦ none ∷ []
  | _ ↦ []
]
confirmed_spends _ _ = []

abbrev pub blocked_spends : AuditEventType → Payload → List Spend
blocked_spends gate_decision (decided p) = elim p.verdict.outcome [
  | block ↦ some (p.intent.amount, p.intent.currency) ∷ []
  | _ ↦ []
]
blocked_spends gate_decision (reviewed p) = elim p.verdict.outcome [ block ↦ none ∷ [] | _ ↦ [] ]
blocked_spends _ _ = []

abbrev pub settled_spends : AuditEventType → Payload → List Spend
settled_spends payment_settled (settled intent receipt amount currency rail) =
    some (amount, currency) ∷ []
settled_spends payment_settled _ = none ∷ []
settled_spends _ _ = []

-- From the start of the period, and before its end.
pub falls_in : ℕ → ReportPeriod → Bool
falls_in ts period = ltb ts period.end && not (ltb ts period.start)

in_period-falls_in : (ts : ℕ) (period : ReportPeriod) → in_period ts period ≡ falls_in ts period
unfolding falls_in
in_period-falls_in ts period = ground arith

-- The payments that the entries of the period tell of, in their order.
pub spends_in :
    (AuditEventType → Payload → List Spend) → ReportPeriod → List AuditEntry → List Spend
spends_in f period [] = []
spends_in f period (e ∷ es) =
    let rest = spends_in f period es in
    if falls_in e.ts period then f e.type e.payload ++ rest else rest

-- `a` and then the total of the rest.
abbrev plus : Total → Option Total → Total
plus a none = a
plus (whole_total a) (some (whole_total b)) = whole_total (a + b)
plus _ _ = unfollowed

abbrev total_of : Amount → Total
total_of (minor n) = whole_total n
total_of malformed = unfollowed

-- The sum of the payments in a currency, if there is one.
pub total_in : String → List Spend → Option Total
total_in c [] = none
total_in c (none ∷ ps) = total_in c ps
total_in c (some (a, k) ∷ ps) =
    let rest = total_in c ps in if str_eq k c then some (plus (total_of a) rest) else rest

-- A section counts the payments, and has the total of each currency.
pub record IsExact (b : SpendBucket) (ps : List Spend) : Type 0 where
  pub count : b.count ≡ length ps
  pub total : (c : String) → get c b.total_by_currency ≡ total_in c ps

add_all : SpendBucket → List Spend → SpendBucket
add_all b [] = b
add_all b (p ∷ ps) = add_all (add_to_bucket b p) ps

add_all-append :
    (b : SpendBucket) (ps qs : List Spend) → add_all b (ps ++ qs) ≡ add_all (add_all b ps) qs
unfolding add_all
add_all-append b [] qs = refl
add_all-append b (p ∷ ps) qs = add_all-append (add_to_bucket b p) ps qs

count-add_all : (b : SpendBucket) (ps : List Spend) → (add_all b ps).count ≡ b.count + length ps
unfolding add_all add_to_bucket
count-add_all b [] = omega arith
count-add_all b (none ∷ ps) = omega (arith, count-add_all (add_to_bucket b none) ps)
count-add_all b (some x ∷ ps) = omega (arith, count-add_all (add_to_bucket b (some x)) ps)

-- What is in a bucket, with what is added.
abbrev joined : Option Total → Option Total → Option Total
joined none o = o
joined (some a) o = some (plus a o)

joined_assoc :
    (o : Option Total) (a : Amount) (r : Option Total)
    → joined (some (add_amount (get_or o (whole_total 0)) a)) r
      ≡ joined o (some (plus (total_of a) r))
joined_assoc o a r = ground arith

spent_in :
    (c k : String) (a : Amount) (r : Option Total) (m : Map Total)
    → joined
        (if str_eq k c then some (add_amount (get_or (get k m) (whole_total 0)) a) else get c m)
        r
      ≡ joined (get c m) (if str_eq k c then some (plus (total_of a) r) else r)
spent_in c k a r m = elim (Bool-cases (str_eq k c)) [
  | inl same ↦ rw (same, (eq_iff k c).0 same) (joined_assoc (get c m) a r)
  | inr other ↦ rw other refl
]

total-add_all :
    (c : String) (b : SpendBucket) (ps : List Spend)
    → get c (add_all b ps).total_by_currency ≡ joined (get c b.total_by_currency) (total_in c ps)
unfolding add_all add_to_bucket total_in
total-add_all c b [] = ground arith
total-add_all c b (none ∷ ps) = total-add_all c (add_to_bucket b none) ps
total-add_all c b (some (a, k) ∷ ps) =
    total-add_all c (add_to_bucket b (some (a, k))) ps
    ∙ rw
        (get-set k c (add_amount (get_or (get k b.total_by_currency) (whole_total 0)) a)
          b.total_by_currency)
        (spent_in c k a (total_in c ps) b.total_by_currency)

module _ (trim : String → String) (period : ReportPeriod) where
  -- A section whose entries add their payments has added those of the log.
  section_log :
      (g : Tally → SpendBucket) (f : AuditEventType → Payload → List Spend)
      → ((n : ℕ) (t : Tally) → g (record t { entries_in_period = n }) ≡ g t)
      → ((type : AuditEventType) (p : Payload) (t : Tally)
          → g (count_type trim type p t) ≡ add_all (g t) (f type p))
      → (es : List AuditEntry) (t : Tally)
      → g (count_log trim period es t) ≡ add_all (g t) (spends_in f period es)
  unfolding count_log count_entry spends_in add_all
  section_log g f apart step [] t = refl
  section_log g f apart step (e ∷ es) t = elim (Bool-cases (falls_in e.ts period)) [
    | inl inside ↦
        rw (inside, in_period-falls_in e.ts period ∙ inside)
          (section_log g f apart step es _
            ∙ ap (λ b. add_all b (spends_in f period es))
                (step e.type e.payload _ ∙ ap (λ b. add_all b (f e.type e.payload)) (apart _ t))
            ∙ sym (add_all-append (g t) (f e.type e.payload) (spends_in f period es)))
    | inr outside ↦
        rw (outside, in_period-falls_in e.ts period ∙ outside) (section_log g f apart step es t)
  ]

  auto_step :
      (type : AuditEventType) (p : Payload) (t : Tally)
      → (count_type trim type p t).auto_executed ≡ add_all t.auto_executed (auto_spends type p)
  unfolding add_all count_decision
  auto_step gate_decision (decided p) t = ground arith
  auto_step gate_decision (reviewed p) t = ground arith
  auto_step gate_decision p t = refl
  auto_step mandate_granted p t = refl
  auto_step type p t = refl

  confirmed_step :
      (type : AuditEventType) (p : Payload) (t : Tally)
      → (count_type trim type p t).operator_confirmed
        ≡ add_all t.operator_confirmed (confirmed_spends type p)
  unfolding add_all count_decision
  confirmed_step gate_decision (decided p) t = ground arith
  confirmed_step gate_decision (reviewed p) t = ground arith
  confirmed_step gate_decision p t = refl
  confirmed_step mandate_granted p t = refl
  confirmed_step type p t = refl

  blocked_step :
      (type : AuditEventType) (p : Payload) (t : Tally)
      → (count_type trim type p t).blocked ≡ add_all t.blocked (blocked_spends type p)
  unfolding add_all count_decision
  blocked_step gate_decision (decided p) t = ground arith
  blocked_step gate_decision (reviewed p) t = ground arith
  blocked_step gate_decision p t = refl
  blocked_step mandate_granted p t = refl
  blocked_step type p t = refl

  settled_step :
      (type : AuditEventType) (p : Payload) (t : Tally)
      → (count_type trim type p t).settled ≡ add_all t.settled (settled_spends type p)
  unfolding add_all count_decision
  settled_step payment_settled (settled intent receipt amount currency rail) t = refl
  settled_step payment_settled p t = refl
  settled_step gate_decision (decided p) t = ground arith
  settled_step gate_decision (reviewed p) t = ground arith
  settled_step gate_decision p t = refl
  settled_step mandate_granted p t = refl
  settled_step type p t = refl

  add_all-IsExact : (b : SpendBucket) (ps : List Spend) → b ≡ add_all empty_bucket ps → IsExact b ps
  unfolding get
  add_all-IsExact b ps e = record {
    count =
        let n = count-add_all empty_bucket ps in
        let same = ap (λ (x : SpendBucket). x.count) e in omega arith;
    total = λ c.
        ap (λ (x : SpendBucket). get c x.total_by_currency) e ∙ total-add_all c empty_bucket ps;
  }

  entries_step :
      (type : AuditEventType) (p : Payload) (t : Tally)
      → (count_type trim type p t).entries_in_period ≡ t.entries_in_period
  unfolding count_decision
  entries_step gate_decision (decided p) t = ground arith
  entries_step gate_decision (reviewed p) t = ground arith
  entries_step gate_decision p t = refl
  entries_step mandate_granted p t = refl
  entries_step type p t = refl

  entry_counted :
      (e : AuditEntry) (t : Tally)
      → (count_entry trim period e t).entries_in_period
        ≡ t.entries_in_period + length (filter (λ x. falls_in x.ts period) (e ∷ []))
  unfolding count_entry
  entry_counted e t = elim (Bool-cases (falls_in e.ts period)) [
    | inl inside ↦
        rw (inside, in_period-falls_in e.ts period ∙ inside)
          (entries_step e.type e.payload (record t { entries_in_period = t.entries_in_period + 1 }))
    | inr outside ↦ rw (outside, in_period-falls_in e.ts period ∙ outside) (omega arith)
  ]

  -- The entries of the period are those that the loop has read.
  entries_log :
      (es : List AuditEntry) (t : Tally)
      → (count_log trim period es t).entries_in_period
        ≡ t.entries_in_period + length (filter (λ e. falls_in e.ts period) es)
  unfolding count_log
  entries_log [] t = omega arith
  entries_log (e ∷ es) t =
      let rest = entries_log es (count_entry trim period e t) in
      ground (arith, rest, entry_counted e t)

  -- The report on a log is what its entries of the period say, one by one, in four sections: decisions of
  -- the agent's phase whose outcome is to execute, decisions of the operator's phase whose recorded
  -- outcome is to execute, decisions of either phase that block, and settlements. Each is counted once,
  -- and summed within its currency as long as the amounts of that currency are whole; a decision of the
  -- operator's phase has no amount. Entries of other kinds, among them those of a halt, are in none of
  -- the four, and all entries of the period are counted.
  pub report-IsExact :
      (log : List AuditEntry) (mandates : List Mandate) (integrity : Verdict)
      → let r = deployer_oversight_report trim log mandates integrity period in
        IsExact r.human_oversight.auto_executed (spends_in auto_spends period log)
        × IsExact r.human_oversight.operator_confirmed (spends_in confirmed_spends period log)
        × IsExact r.human_oversight.blocked (spends_in blocked_spends period log)
        × IsExact r.monitoring.settled (spends_in settled_spends period log)
        × (r.record_keeping.entries_in_period ≡ length (filter (λ e. falls_in e.ts period) log))
  unfolding deployer_oversight_report
  report-IsExact log mandates integrity = (
    add_all-IsExact _ _
        (section_log (λ t. t.auto_executed) auto_spends (λ n t. refl) auto_step log nothing),
    add_all-IsExact _ _ (
        section_log (λ t. t.operator_confirmed) confirmed_spends (λ n t. refl) confirmed_step log
          nothing),
    add_all-IsExact _ _
        (section_log (λ t. t.blocked) blocked_spends (λ n t. refl) blocked_step log nothing),
    add_all-IsExact _ _
        (section_log (λ t. t.settled) settled_spends (λ n t. refl) settled_step log nothing),
    let n = entries_log log nothing in omega arith,
  )
