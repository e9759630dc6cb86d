-- ===== src/Enforcement/Replay.antt =====
-- Replaying what src/core/executor.ts recorded: src/core/enforcement.ts.
use agentworth.Prelude.{
  ℕ, ◌≡◌, refl, ◌∙◌, ap, String, Bool, true, ◌&&◌, Option, none, some, List, [], ◌∷◌, ◌++◌, any,
  ◌||◌, str_eq, map, arith, filter, find, find_sound, In, inl, inr, eq_iff, eq_refl, Option-cases,
}
use agentworth.Types.{
  Mandate, PaymentIntent, Attestation, GateDecision, GateOutcome, auto_execute, confirm_operator,
  block, RiskTier, no_risk, low, medium, high, PriorSpend, ReputationLevel,
}
use agentworth.Gate.{is_live_mandate, reversibility_of, authorizing, evaluate_gate}
use agentworth.Gate.Agreement.{changed, Agreeing, evaluate_gate-agreeing}
use agentworth.Enforcement.{
  sort_texts, EffectivePolicy, effective_policy, sort_mandates, DecisionRecord,
  decision_record_from_audit_entry, look_up_spend, replay_context, verdicts_equal, outcome_eq,
  tier_eq, option_text_eq, option_ℕ_eq, replay_decision, replay_reputation, compute_policy_hash,
}
use agentworth.Audit.{AuditEntry, next_entry, append}
use agentworth.Rails.{get_provider}
use agentworth.RiskChain.{evaluate_risk_chain, default_options}
use agentworth.Store.{
  list_mandates, list_active_mandates, period_spend, is_known_payee, known_payees,
}
use agentworth.Executor.{
  Deps, State, context, gate_verdict, decide, escalate, is_streaming, record_event, constantly,
  current_policy_hash,
}
use agentworth.Executor.Operations.{reversibility_for, replay_inputs, record_decision}

any-insert_text :
    (p : String → Bool) (t : String) (us : List String)
    → any p (agentworth.Enforcement.insert_text t us) ≡ (p t || any p us)
unfolding agentworth.Enforcement.insert_text
any-insert_text p t [] = refl
any-insert_text p t (u ∷ us) = ground (arith, any-insert_text p t us)

any-sort_texts : (p : String → Bool) (ts : List String) → any p (sort_texts ts) ≡ any p ts
unfolding sort_texts
any-sort_texts p [] = refl
any-sort_texts p (t ∷ ts) = ground (arith, any-insert_text p t (sort_texts ts), any-sort_texts p ts)

-- The order of the payees of a snapshot plays no part.
known-sort_texts :
    (ts : List String)
    → Path
        (String → Bool)
        (λ payee. any (λ p. str_eq p payee) (sort_texts ts))
        (λ payee. any (λ p. str_eq p payee) ts)
known-sort_texts ts = λ i payee. any-sort_texts (λ p. str_eq p payee) ts i

constantly-replay : (o : Option ReputationLevel) → replay_reputation o ≡ constantly o
constantly-replay none = refl
constantly-replay (some level) = refl

find-filter :
    (p q : Mandate → Bool) (ms : List Mandate)
    → find (λ m. p m && q m) ms ≡ find (λ m. p m && q m) (filter p ms)
find-filter p q [] = refl
find-filter p q (m ∷ ms) = ground (arith, find-filter p q ms)

look_up_spend-map :
    (f : String → List PriorSpend) (ms : List Mandate) (m : Mandate)
    → In m ms
    → look_up_spend m.id (map (λ m. (m.id, f m.id)) ms) ≡ f m.id
look_up_spend-map f [] m i = absurd i
look_up_spend-map f (n ∷ ms) m i = ground (arith, eq_iff n.id m.id, look_up_spend-map f ms m)

outcome_eq_refl : (o : GateOutcome) → outcome_eq o o ≡ true
outcome_eq_refl auto_execute = refl
outcome_eq_refl confirm_operator = refl
outcome_eq_refl block = refl

tier_eq_refl : (t : RiskTier) → tier_eq t t ≡ true
tier_eq_refl no_risk = refl
tier_eq_refl low = refl
tier_eq_refl medium = refl
tier_eq_refl high = refl

option_text_eq_refl : (o : Option String) → option_text_eq o o ≡ true
option_text_eq_refl none = refl
option_text_eq_refl (some t) = eq_refl t

option_ℕ_eq_refl : (o : Option ℕ) → option_ℕ_eq o o ≡ true
option_ℕ_eq_refl none = refl
option_ℕ_eq_refl (some n) = ground arith

verdicts_equal_refl : (v : GateDecision) → verdicts_equal v v ≡ true
unfolding verdicts_equal
verdicts_equal_refl v = rw (
  outcome_eq_refl v.outcome,
  option_text_eq_refl v.mandate_id,
  tier_eq_refl v.risk.tier,
  option_ℕ_eq_refl v.remaining,
)

module _ (d : Deps) (now : ℕ) (intent : PaymentIntent) (a : Option Attestation) (s : State)
    (upper : String → String) where
  abbrev policy : EffectivePolicy
  policy = effective_policy (list_mandates s.store) d.config d.deny_rules

  recorded : DecisionRecord
  unfolding replay_inputs
  recorded = record {
    intent = intent;
    ctx_digest = d.hash_inputs (replay_inputs d now intent a s);
    verdict = decide d now intent a s;
    policy_hash = current_policy_hash d s;
    at = now;
    inputs = replay_inputs d now intent a s;
  }

  reversibility_for-context :
      reversibility_for d intent ≡ reversibility_of intent (context d now intent a s)
  unfolding context
  reversibility_for-context = elim (Option-cases (get_provider d.rails intent.rail)) [
    | inl e ↦ rw (e, reversibility_for)
    | inr (p, e) ↦ rw (e, reversibility_for)
  ]

  replay_context-changed :
      d.fx ≡ none
      → sort_mandates (list_mandates s.store) ≡ list_mandates s.store
      → replay_context upper recorded policy d.deny_rules
        ≡ changed intent
            (context d now intent a s)
            (list_mandates s.store)
            (λ id. look_up_spend id recorded.inputs.period_spend)
            (λ payee. recorded.inputs.trust)
            (reversibility_for d intent)
  unfolding replay_context recorded context effective_policy is_known_payee replay_inputs
  replay_context-changed plain sorted =
      rw (plain, sorted, constantly-replay, known-sort_texts (known_payees s.store))

  same_context :
      Agreeing intent
        (context d now intent a s)
        (list_mandates s.store)
        (λ id. look_up_spend id recorded.inputs.period_spend)
        (λ payee. recorded.inputs.trust)
        (reversibility_for d intent)
  unfolding recorded replay_inputs context authorizing list_active_mandates
  same_context = record {
    same_rev = reversibility_for-context;
    same_trust = refl;
    same_authority = λ n. find-filter (λ m. is_live_mandate m now) _ (list_mandates s.store);
    same_spend = λ n m e.
        look_up_spend-map (λ id. period_spend id now s.store) (list_active_mandates now s.store) m
          (find_sound _ (list_active_mandates now s.store) m e).0;
  }

  replay-gate_verdict :
      d.fx ≡ none
      → sort_mandates (list_mandates s.store) ≡ list_mandates s.store
      → evaluate_gate intent (replay_context upper recorded policy d.deny_rules)
        ≡ gate_verdict d now intent a s
  unfolding gate_verdict
  replay-gate_verdict plain sorted =
      ap (evaluate_gate intent) (replay_context-changed plain sorted)
      ∙ evaluate_gate-agreeing intent (context d now intent a s) _ _ _ _ same_context

-- The entry that a decision appends to the log, read back and replayed under the policy of that
-- moment: the entry commits to the policy's hash, and the replay gives the recorded verdict.
pub record Replayed (d : Deps) (now : ℕ) (intent : PaymentIntent) (a : Option Attestation)
    (s : State) (upper : String → String) : Type 0 where
  pub entry : AuditEntry
  pub found : DecisionRecord
  pub logged :
      (record_decision d now intent a (decide d now intent a s) s).log ≡ s.log ++ entry ∷ []
  pub read : decision_record_from_audit_entry entry ≡ some found
  pub committed :
      found.policy_hash
      ≡ compute_policy_hash d.hash_policy
          (effective_policy (list_mandates s.store) d.config d.deny_rules)
  pub matches :
      (replay_decision upper found
        (effective_policy (list_mandates s.store) d.config d.deny_rules)
        d.deny_rules).0
      ≡ true

-- A decision that `execute` records can be read back from the entry that it appends to the log, and
-- a replay under the policy of that moment, whose hash the entry commits to, gives the recorded
-- verdict. That holds when no FX rates are configured, no pattern of the session was found, and the
-- store keeps the mandates in the order of their ids.
pub replay-record_decision :
    (d : Deps) (now : ℕ) (intent : PaymentIntent) (a : Option Attestation) (s : State)
    (upper : String → String)
    → d.fx ≡ none
    → sort_mandates (list_mandates s.store) ≡ list_mandates s.store
    → evaluate_risk_chain intent s.log now
        (default_options (is_streaming (gate_verdict d now intent a s).mandate_id s))
      ≡ none
    → Replayed d now intent a s upper
unfolding record_decision record_event append next_entry decision_record_from_audit_entry recorded
    current_policy_hash replay_decision decide escalate
replay-record_decision d now intent a s upper plain sorted quiet = record {
  entry = _;
  found = recorded d now intent a s upper;
  logged = refl;
  read = refl;
  committed = refl;
  matches =
      rw (replay-gate_verdict d now intent a s upper plain sorted, quiet)
        (verdicts_equal_refl (gate_verdict d now intent a s));
}
