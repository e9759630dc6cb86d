-- ===== src/X402Proxy.antt =====
-- src/proxy/x402Proxy.ts: a forward proxy that pays an x402 challenge only through the executor. The
-- upstream's answers, the parser of a challenge, the text of an answer's body and the finite numbers of
-- the runtime are arguments.
pub mod Cheapest
pub mod Governed
mod Tests
use Prim.Native.String.{◌++◌ as text_append}
use agentworth.Prelude.{
  ℕ, String, Bool, true, false, ◌&&◌, Option, none, some, List, [], ◌∷◌, ◌==◌, str_eq,
  if◌then◌else◌, filter, any, get_or, is_some,
}
use agentworth.Types.{RailKind, onchain, PaymentIntent, Amount, Receipt, Reason}
use agentworth.Store.{IntentStatus}
use agentworth.Executor.{Deps, State, ExecuteResult, Error, Outcome, returned, raised}
use agentworth.Executor.Operations.{execute}

-- `Number(text)` where it is finite, `<`, and `Math.trunc` as an amount.
pub record Numbers : Type 1 where
  pub Number : Type 0
  pub number : String → Option Number
  pub less : Number → Number → Bool
  pub trunc : Number → Amount

pub record X402Requirement : Type 0 where
  pub scheme : String
  pub network : String
  pub asset : String
  pub pay_to : String
  pub max_amount_required : String
  pub resource : Option String
  pub description : Option String

pub record ChallengeContext : Type 0 where
  pub new_id : String
  pub clock : ℕ
  pub rail : Option RailKind
  pub currency_of : Option (X402Requirement → String)
  pub payee_class_of : Option (X402Requirement → String)
  pub networks : Option (List String)

pub data ChallengeOutcome : Type 0 where
  settle route_to_operator block no_requirement : ChallengeOutcome

-- The reasons of a challenge that no requirement of which can be paid, or the gate's.
pub data ChallengeReasons : Type 0 where
  no_acceptable_network : ChallengeReasons
  of_gate : List Reason → ChallengeReasons

pub record ChallengeDecision : Type 0 where
  pub outcome : ChallengeOutcome
  pub requirement : Option X402Requirement
  pub intent : Option PaymentIntent
  pub result : Option ExecuteResult
  pub reasons : ChallengeReasons

pub record ProxyRequest : Type 0 where
  pub method : String
  pub url : String
  pub headers : List (String × String)
  pub body : Option String

pub record ProxyResponse : Type 0 where
  pub status : ℕ
  pub headers : List (String × String)
  pub body : String

abbrev pub on_network : Option (List String) → X402Requirement → Bool
on_network none r = true
on_network (some networks) r = any (λ n. str_eq n r.network) networks

abbrev pub called : Option (X402Requirement → String) → X402Requirement → String → String
called none r d = d
called (some f) r d = f r

module _ (n : Numbers) where
  open n use {Number, number, less, trunc}

  -- A requirement with its price.
  abbrev pub Priced : Type 0
  Priced = X402Requirement × Number

  abbrev pub priced : X402Requirement → Option Number → List Priced → List Priced
  priced r none rest = rest
  priced r (some price) rest = (r, price) ∷ rest

  -- The requirements on an acceptable network, with a finite price.
  unfoldable pub eligible : Option (List String) → List X402Requirement → List Priced
  eligible networks [] = []
  eligible networks (r ∷ rs) =
      let rest = eligible networks rs in
      if on_network networks r then priced r (number r.max_amount_required) rest else rest

  unfoldable pub cheapest : Priced → List Priced → Priced
  cheapest best [] = best
  cheapest best (r ∷ rs) = cheapest (if less r.1 best.1 then r else best) rs

  abbrev pub reduce : List Priced → Option Priced
  reduce [] = none
  reduce (r ∷ rs) = some (cheapest r rs)

  unfoldable pub select_requirement : List X402Requirement → Option (List String) → Option Priced
  unfolding eligible
  select_requirement accepts networks = reduce (eligible networks accepts)

  unfoldable pub intent_for : Priced → ChallengeContext → PaymentIntent
  intent_for (r, price) ctx = record {
    id = ctx.new_id;
    payee = r.pay_to;
    payee_class = called ctx.payee_class_of r "x402-service";
    amount = trunc price;
    currency = called ctx.currency_of r "USDC";
    rail = get_or ctx.rail onchain;
    rationale = text_append "x402 paywall: " (
        text_append (get_or r.description (get_or r.resource "resource")) (
          text_append " on "
            (text_append r.network (text_append " (" (text_append r.scheme ")")))));
    created_at = ctx.clock;
  }

  abbrev pub outcome_of : IntentStatus → ChallengeOutcome
  outcome_of IntentStatus.settled = settle
  outcome_of IntentStatus.pending = route_to_operator
  outcome_of _ = block

  abbrev challenge_result :
      X402Requirement
      → PaymentIntent
      → State × Outcome ExecuteResult
      → State × Outcome ChallengeDecision
  challenge_result r intent (s, raised e) = (s, raised e)
  challenge_result r intent (s, returned result) = (
    s,
    returned (record {
      outcome = outcome_of result.status;
      requirement = some r;
      intent = some intent;
      result = some result;
      reasons = of_gate result.decision.reasons;
    }),
  )

  abbrev nothing_acceptable : ChallengeDecision
  nothing_acceptable = record {
    outcome = no_requirement;
    requirement = none;
    intent = none;
    result = none;
    reasons = no_acceptable_network;
  }

  abbrev pub handle_selected :
      Deps → ChallengeContext → ℕ → State → Option Priced → State × Outcome ChallengeDecision
  handle_selected d ctx now s none = (s, returned nothing_acceptable)
  handle_selected d ctx now s (some r) =
      challenge_result r.0 (intent_for r ctx) (execute d now (intent_for r ctx) none s)

  -- `now` is the reading of the executor's clock.
  unfoldable pub handle_challenge :
      Deps → ChallengeContext → ℕ → List X402Requirement → State → State × Outcome ChallengeDecision
  handle_challenge d ctx now accepts s =
      handle_selected d ctx now s (select_requirement accepts ctx.networks)

-- What the proxy is wired to; an upstream that cannot be reached answers nothing.
pub record ProxyDeps : Type 1 where
  pub numbers : Numbers
  pub executor : Deps
  pub ctx : ChallengeContext
  pub now : ℕ
  pub upstream : ProxyRequest → Option String → Option ProxyResponse
  pub build_proof : Option (ExecuteResult → String)
  pub parse_challenge : String → Option (List X402Requirement)
  pub body_of : ChallengeDecision → String

-- The state after a request, the proofs that were sent upstream (none with the first request), and what
-- the agent gets; none when the upstream fails or the executor throws.
pub record Forwarded : Type 0 where
  pub state : State
  pub sent : List (Option String)
  pub response : Option ProxyResponse

abbrev pub default_proof : ExecuteResult → String
default_proof result = elim result.receipt [ none ↦ "" | some r ↦ r.provider_ref ]

abbrev pub proof_of : ProxyDeps → ExecuteResult → String
proof_of p result = elim p.build_proof [ none ↦ default_proof result | some f ↦ f result ]

abbrev pub passed : State → Option ProxyResponse → Forwarded
passed s response = record { state = s; sent = none ∷ []; response = response }

abbrev refusal : ProxyDeps → ChallengeDecision → ProxyResponse
refusal p decision = elim decision.outcome [
  | route_to_operator ↦ record {
    status = 402;
    headers = ("content-type", "application/json") ∷ ("x-agentworth", "pending-operator") ∷ [];
    body = p.body_of decision;
  }
  | _ ↦ record {
    status = 403;
    headers = ("content-type", "application/json") ∷ ("x-agentworth", "blocked") ∷ [];
    body = p.body_of decision;
  }
]

abbrev pub retry : ProxyDeps → ProxyRequest → State → String → Forwarded
retry p req s proof = record {
  state = s;
  sent = none ∷ some proof ∷ [];
  response = p.upstream req (some proof);
}

abbrev pub governed :
    ProxyDeps
    → ProxyRequest
    → State
    → ChallengeDecision
    → ChallengeOutcome
    → Option ExecuteResult
    → Forwarded
governed p req s decision settle (some result) = retry p req s (proof_of p result)
governed p req s decision _ _ = passed s (some (refusal p decision))

abbrev pub after_challenge :
    ProxyDeps → ProxyRequest → State × Outcome ChallengeDecision → Forwarded
after_challenge p req (s, raised e) = passed s none
after_challenge p req (s, returned decision) =
    governed p req s decision decision.outcome decision.result

abbrev pub on_challenge :
    ProxyDeps → ProxyRequest → State → ProxyResponse → Option (List X402Requirement) → Forwarded
on_challenge p req s first none = passed s (some first)
on_challenge p req s first (some accepts) =
    after_challenge p req (handle_challenge p.numbers p.executor p.ctx p.now accepts s)

abbrev pub on_first : ProxyDeps → ProxyRequest → State → Option ProxyResponse → Forwarded
on_first p req s none = passed s none
on_first p req s (some first) =
    if first.status == 402
    then on_challenge p req s first (p.parse_challenge first.body)
    else passed s (some first)

unfoldable pub forward : ProxyDeps → ProxyRequest → State → Forwarded
forward p req s = on_first p req s (p.upstream req none)
