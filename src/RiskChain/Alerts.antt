-- ===== src/RiskChain/Alerts.antt =====
-- What the silence of src/core/riskChain.ts says of the log.
use agentworth.Prelude.{
  ℕ, ◌+◌, ◌*◌, ◌≤◌, ◌<◌, ◌≡◌, refl, sym, ap, String, Bool, Bool-cases, ltb, le→leb, lt→ltb, eq_refl,
  true, false, ◌&&◌, not, Option, none, some, List, [], ◌∷◌, map, arith, leb, filter, any, length,
  In, inl, inr, eq_iff, str_eq, any-false, distinct-sole, if◌then◌else◌,
}
use agentworth.Types.{RailKind, onchain, card, checkout, rail_eq, PaymentIntent, minor}
use agentworth.Audit.{AuditEntry, DecisionPayload, gate_decision, mandate_granted, granted, decided}
use agentworth.RiskChain.{
  ChainOptions, decision_of, recent_decisions, is_auto, auto_to, same_payee_auto, is_smurfing,
  is_splitting, is_probing, is_drain, later_of, grants, latest_grant, window_start,
  evaluate_risk_chain, add_decision,
}

-- An entry of the window that records a decision with the property `p`.
abbrev pub holds : (DecisionPayload → Bool) → Option DecisionPayload → Bool
holds p none = false
holds p (some d) = p d

abbrev pub entry_with : (DecisionPayload → Bool) → ℕ → AuditEntry → Bool
entry_with p start e = leb start e.ts && holds p (decision_of e.type e.payload)

abbrev pub refused : DecisionPayload → Bool
refused d = not (is_auto d.verdict.outcome)

-- An entry of the window records a payment of at least the share of what was left of its mandate, no
-- later after a grant of the mandate than the limit.
pub record Drained (o : ChainOptions) (start : ℕ) (entries : List AuditEntry) (e : AuditEntry)
    : Type 0 where
  pub decision : DecisionPayload
  pub recent : start ≤ e.ts
  pub kind : e.type ≡ gate_decision
  pub says : e.payload ≡ decided decision
  pub amount : ℕ
  pub whole : decision.intent.amount ≡ minor amount
  pub left : ℕ
  pub remaining : decision.verdict.remaining ≡ some left
  pub positive : 0 < amount + left
  pub share : (amount + left) * o.drain_num ≤ amount * o.drain_den
  pub id : String
  pub mandate : decision.verdict.mandate_id ≡ some id
  pub grant : AuditEntry
  pub listed : In grant entries
  pub grant_kind : grant.type ≡ mandate_granted
  pub label : String
  pub grant_says : grant.payload ≡ granted id label
  pub before : grant.ts ≤ e.ts
  pub soon : e.ts ≤ grant.ts + o.drain_after_grant_minutes * 60_000

-- No pattern is found, said of the entries of the log.
pub record Quiet (intent : PaymentIntent) (entries : List AuditEntry) (start : ℕ) (o : ChainOptions)
    : Type 0 where
  pub paced :
      o.is_streaming ≡ false → length (filter (entry_with (auto_to intent.payee) start) entries) ≤ 2
  pub one_rail :
      o.is_streaming ≡ false
      → 2 ≤ length (filter (entry_with (auto_to intent.payee) start) entries)
      → (d : DecisionPayload)
      → In d (filter (auto_to intent.payee) (recent_decisions start entries))
      → d.intent.rail ≡ intent.rail
  pub unprobing :
      4 ≤ length (filter (entry_with refused start) entries)
      → (d : DecisionPayload) → In d (filter refused (recent_decisions start entries))
      → d.intent.payee ≡ intent.payee
  pub undrained : (e : AuditEntry) → In e entries → ¬ Drained o start entries e

count-add_decision :
    (p : DecisionPayload → Bool) (b : Bool) (o : Option DecisionPayload) (ds : List DecisionPayload)
    → length (filter p (add_decision b o ds))
      ≡ (if b && holds p o then 1 else 0) + length (filter p ds)
count-add_decision p true none ds = omega arith
count-add_decision p true (some d) ds = ground arith
count-add_decision p false o ds = omega arith

recent-count :
    (p : DecisionPayload → Bool) (start : ℕ) (es : List AuditEntry)
    → length (filter p (recent_decisions start es)) ≡ length (filter (entry_with p start) es)
unfolding recent_decisions
recent-count p start [] = refl
recent-count p start (e ∷ es) = ground (
  arith,
  count-add_decision p (leb start e.ts) (decision_of e.type e.payload) (recent_decisions start es),
  recent-count p start es,
)

rail_eq_sound : (r q : RailKind) → rail_eq r q ≡ true → r ≡ q
rail_eq_sound onchain onchain h = refl
rail_eq_sound card card h = refl
rail_eq_sound checkout checkout h = refl
rail_eq_sound r q h = cc

In-map : {A B : Type 0} (f : A → B) (xs : List A) (a : A) → In a xs → In (f a) (map f xs)
In-map f [] a i = absurd i
In-map f (x ∷ xs) a (inl e) = inl (ap f e)
In-map f (x ∷ xs) a (inr i) = inr (In-map f xs a i)

module _ (intent : PaymentIntent) (ds : List DecisionPayload) where
  is_smurfing-none : is_smurfing intent ds ≡ false → length (filter (auto_to intent.payee) ds) ≤ 2
  unfolding is_smurfing same_payee_auto
  is_smurfing-none h = ground arith

  is_splitting-none :
      is_splitting intent ds ≡ false
      → 2 ≤ length (filter (auto_to intent.payee) ds)
      → (d : DecisionPayload) → In d (filter (auto_to intent.payee) ds)
      → d.intent.rail ≡ intent.rail
  unfolding is_splitting same_payee_auto
  is_splitting-none h n d i =
      distinct-sole rail_eq rail_eq_sound intent.rail
        (map (λ d. d.intent.rail) (filter (auto_to intent.payee) ds)) d.intent.rail (ground arith)
        (In-map (λ (d : DecisionPayload). d.intent.rail) (filter (auto_to intent.payee) ds) d i)

  is_probing-none :
      is_probing intent ds ≡ false
      → 4 ≤ length (filter refused ds)
      → (d : DecisionPayload) → In d (filter refused ds)
      → d.intent.payee ≡ intent.payee
  unfolding is_probing
  is_probing-none h n d i =
      distinct-sole str_eq (λ a b. (eq_iff a b).0) intent.payee
        (map (λ d. d.intent.payee) (filter refused ds)) d.intent.payee (ground arith)
        (In-map (λ (d : DecisionPayload). d.intent.payee) (filter refused ds) d i)

later_of-held : (b : Bool) (t u : ℕ) → (w : ℕ) × (later_of b t (some u) ≡ some w) × (u ≤ w)
later_of-held true t u = elim (Bool-cases (ltb u t)) [
  | inl e ↦ (t, rw e refl, ground (arith, e))
  | inr e ↦ (u, rw e refl, omega arith)
]
later_of-held false t u = (u, refl, omega arith)

later_of-new : (t : ℕ) (o : Option ℕ) → (w : ℕ) × (later_of true t o ≡ some w) × (t ≤ w)
later_of-new t none = (t, refl, omega arith)
later_of-new t (some u) = elim (Bool-cases (ltb u t)) [
  | inl e ↦ (t, rw e refl, omega arith)
  | inr e ↦ (u, rw e refl, ground (arith, e))
]

-- A grant is not later than the latest one.
latest_grant-some :
    (id label : String) (at : ℕ) (g : AuditEntry) (es : List AuditEntry)
    → In g es
    → g.type ≡ mandate_granted
    → g.payload ≡ granted id label
    → g.ts ≤ at
    → (w : ℕ) × (latest_grant id at es ≡ some w) × (g.ts ≤ w)
unfolding latest_grant
latest_grant-some id label at g [] i k s b = absurd i
latest_grant-some id label at g (e ∷ es) (inl same) k s b =
    let found : grants id e.type e.payload && leb e.ts at ≡ true =
      rw (sym same, k, s, eq_refl, le→leb _ _ b) refl in
    let (w, is, later) = later_of-new e.ts (latest_grant id at es) in
    (w, rw (found, latest_grant) is, rw same later)
latest_grant-some id label at g (e ∷ es) (inr i) k s b =
    let (u, held, le) = latest_grant-some id label at g es i k s b in
    let (w, is, later) = later_of-held (grants id e.type e.payload && leb e.ts at) e.ts u in
    (w, rw (held, latest_grant) is, omega arith)

Drained-is_drain :
    (o : ChainOptions) (start : ℕ) (entries : List AuditEntry) (e : AuditEntry)
    → Drained o start entries e
    → is_drain o start entries e ≡ true
unfolding is_drain
Drained-is_drain o start entries e x =
    let (w, latest, later) =
      latest_grant-some x.id x.label e.ts x.grant entries x.listed x.grant_kind x.grant_says
        x.before in
    rw
      (
        le→leb _ _ x.recent,
        x.kind,
        x.says,
        x.whole,
        x.remaining,
        x.mandate,
        latest,
        lt→ltb _ _ x.positive,
        le→leb _ _ x.share,
      )
      (ground (arith, later, x.soon))

-- When no alert is raised: unless the mandate streams, the window of the log has at most two
-- autonomous payments to the payee, and when it has two they were on the rail of this payment; when
-- it has four refusals or more, all were of this payee; and no decision of the window took the
-- share that drains of what was left of a mandate, within the limit after a grant of that mandate.
pub evaluate_risk_chain-Quiet :
    (intent : PaymentIntent) (entries : List AuditEntry) (now : ℕ) (o : ChainOptions)
    → evaluate_risk_chain intent entries now o ≡ none
    → Quiet intent entries (window_start now o) o
unfolding evaluate_risk_chain
evaluate_risk_chain-Quiet intent entries now o h =
    let start = window_start now o in
    let ds = recent_decisions (window_start now o) entries in
    let smurfing-none : not o.is_streaming && is_smurfing intent ds ≡ false = ground arith in
    let splitting-none : not o.is_streaming && is_splitting intent ds ≡ false = ground arith in
    let probing-none : is_probing intent ds ≡ false = ground arith in
    let drain-none : any (is_drain o start entries) entries ≡ false = ground arith in
    record {
      paced = λ f. let n = is_smurfing-none intent ds (ground arith) in rw recent-count at n;
      one_rail = λ f n.
          is_splitting-none intent ds (ground arith)
            (rw (recent-count (auto_to intent.payee) start entries) n);
      unprobing =
          λ n. is_probing-none intent ds probing-none (rw (recent-count refused start entries) n);
      undrained = λ e i x. cc (
        any-false (is_drain o start entries) entries e drain-none i,
        Drained-is_drain o start entries e x,
      );
    }
