-- ===== src/X402Proxy/Governed.antt =====
-- The proxy of src/proxy/x402Proxy.ts pays nothing around the gate.
use agentworth.Prelude.{
  ◌≡◌, refl, ap, ◌∙◌, ◌⊎◌, inl, inr, false, Option, none, some, List, [], ◌∷◌, ◌==◌, Bool-cases,
  arith,
}
use agentworth.Types.{PaymentIntent}
use agentworth.Store.{IntentStatus, is_settled}
use agentworth.Executor.{State, ExecuteResult, Outcome, returned, raised}
use agentworth.Executor.Operations.{execute}
use agentworth.Executor.Settlement.{Cleared}
use agentworth.Executor.Settled.{reports_settled, execute-Unsettled}
use agentworth.X402Proxy.{
  X402Requirement, Priced, ProxyRequest, ProxyResponse, ProxyDeps, Forwarded, ChallengeDecision,
  proof_of, eligible, select_requirement, intent_for, outcome_of, governed, handle_challenge,
  handle_selected, after_challenge, on_challenge, on_first, challenge_result, forward,
}
use agentworth.X402Proxy.Cheapest.{Ordered, Cheapest, select_requirement-Cheapest}

module _ (p : ProxyDeps) (req : ProxyRequest) (s : State) where
  -- No proof went upstream, and no receipt was stored.
  abbrev pub Untouched : Forwarded → Type 0
  Untouched f = (f.sent ≡ none ∷ []) × (f.state.store.receipts ≡ s.store.receipts)

  -- The one proof that went upstream is that of the executor's answer `o`, which reports the payment
  -- as settled.
  abbrev pub ProofOfSettled : Outcome ExecuteResult → Forwarded → Type 0
  ProofOfSettled o f =
      (f.sent ≡ none ∷ [])
      ⊎ ((result : ExecuteResult) × (o ≡ returned result)
          × (result.status ≡ IntentStatus.settled)
          × (f.sent ≡ none ∷ some (proof_of p result) ∷ []))

  -- The upstream asked for a payment, the requirement is the cheapest that can be paid, and the
  -- executor lets its intent through.
  pub record Authorised (order : Ordered p.numbers) (f : Forwarded) : Type 1 where
    pub first : ProxyResponse
    pub answered : p.upstream req none ≡ some first
    pub asked : first.status ≡ 402
    pub accepts : List X402Requirement
    pub understood : p.parse_challenge first.body ≡ some accepts
    pub chosen : Priced p.numbers
    pub cheapest : Cheapest p.numbers order (eligible p.numbers p.ctx.networks accepts) chosen
    pub cleared : Cleared p.executor p.now (intent_for p.numbers chosen p.ctx) none s
    pub proof :
        ProofOfSettled (execute p.executor p.now (intent_for p.numbers chosen p.ctx) none s).1 f

  by_status :
      (t : State) (v : ChallengeDecision) (result : ExecuteResult) (st : IntentStatus)
      → result.status ≡ st
      → ((governed p req t v (outcome_of p.numbers st) (some result)).state ≡ t)
        × ProofOfSettled
            (returned result)
            (governed p req t v (outcome_of p.numbers st) (some result))
  by_status t v result IntentStatus.settled e = (refl, inr (result, refl, e, refl))
  by_status t v result IntentStatus.pending e = (refl, inl refl)
  by_status t v result IntentStatus.blocked e = (refl, inl refl)
  by_status t v result IntentStatus.failed e = (refl, inl refl)

  by_unsettled :
      (t : State) (v : ChallengeDecision) (result : ExecuteResult) (st : IntentStatus)
      → is_settled st ≡ false
      → (governed p req t v (outcome_of p.numbers st) (some result)).sent ≡ none ∷ []
  by_unsettled t v result IntentStatus.settled e = cc
  by_unsettled t v result IntentStatus.pending e = refl
  by_unsettled t v result IntentStatus.blocked e = refl
  by_unsettled t v result IntentStatus.failed e = refl

  -- What the proxy does with the executor's answer.
  abbrev answer : X402Requirement → PaymentIntent → State × Outcome ExecuteResult → Forwarded
  answer r i x = after_challenge p req (challenge_result p.numbers r i x)

  answer_state :
      (r : X402Requirement) (i : PaymentIntent) (x : State × Outcome ExecuteResult)
      → ((answer r i x).state ≡ x.0) × ProofOfSettled x.1 (answer r i x)
  answer_state r i (t, raised e) = (refl, inl refl)
  answer_state r i (t, returned result) = by_status t _ result result.status refl

  answer_unsettled :
      (r : X402Requirement) (i : PaymentIntent) (x : State × Outcome ExecuteResult)
      → reports_settled x.1 ≡ false
      → (answer r i x).sent ≡ none ∷ []
  answer_unsettled r i (t, raised e) h = refl
  answer_unsettled r i (t, returned result) h = by_unsettled t _ result result.status h

  module _ (order : Ordered p.numbers) where
    abbrev Governs : Forwarded → Type 1
    Governs f = Untouched f ⊎ Authorised order f

    on_selected :
        (first : ProxyResponse) (accepts : List X402Requirement)
        → p.upstream req none ≡ some first
        → first.status ≡ 402
        → p.parse_challenge first.body ≡ some accepts
        → (o : Option (Priced p.numbers)) → select_requirement p.numbers accepts p.ctx.networks ≡ o
        → Governs (after_challenge p req (handle_selected p.numbers p.executor p.ctx p.now s o))
    on_selected first accepts up asked parsed none e = inl (refl, refl)
    on_selected first accepts up asked parsed (some r) e =
        let i = intent_for p.numbers r p.ctx in
        let x = execute p.executor p.now i none s in
        let (state, proof) = answer_state r.0 i x in
        elim (execute-Unsettled p.executor p.now i none s) [
          | inl (same, un) ↦
              inl (answer_unsettled r.0 i x un, ap (λ (t : State). t.store.receipts) state ∙ same)
          | inr cleared ↦ inr (record {
            first = first;
            answered = up;
            asked = asked;
            accepts = accepts;
            understood = parsed;
            chosen = r;
            cheapest = select_requirement-Cheapest p.numbers order accepts p.ctx.networks r e;
            cleared = cleared;
            proof = proof;
          })
        ]

    on_parsed :
        (first : ProxyResponse)
        → p.upstream req none ≡ some first
        → first.status ≡ 402
        → (o : Option (List X402Requirement)) → p.parse_challenge first.body ≡ o
        → Governs (on_challenge p req s first o)
    unfolding handle_challenge
    on_parsed first up asked none e = inl (refl, refl)
    on_parsed first up asked (some accepts) e =
        on_selected first accepts up asked e (select_requirement p.numbers accepts p.ctx.networks)
          refl

    on_answer : (o : Option ProxyResponse) → p.upstream req none ≡ o → Governs (on_first p req s o)
    on_answer none e = inl (refl, refl)
    on_answer (some first) e = elim (Bool-cases (first.status == 402)) [
      | inl asked ↦
          rw asked (on_parsed first e (ground (arith, asked)) (p.parse_challenge first.body) refl)
      | inr free ↦ rw free (inl (refl, refl))
    ]

    -- Whatever the upstream answers, a request through the proxy stores no receipt and sends no proof
    -- of payment, unless the upstream asked for a payment with a challenge that is understood, and the
    -- executor lets the intent through that is for the cheapest requirement on an acceptable network
    -- with a finite price: it is not halted, a live mandate authorizes the payment within its caps, and
    -- no pattern of the session speaks against it. A proof is sent once at most, and is that
    -- of the result that execute returned for this intent, which reports it as settled. The order of finite numbers is total.
    pub forward-Governed : Untouched (forward p req s) ⊎ Authorised order (forward p req s)
    unfolding forward
    forward-Governed = on_answer (p.upstream req none) refl
