-- ===== src/X402Proxy/Tests.antt =====
-- Runs of src/proxy/x402Proxy.ts.
use agentworth.Prelude.{
  ℕ, ◌≡◌, refl, ◌⊎◌, String, none, some, List, [], ◌∷◌, str_eq, ltb, arith, if◌then◌else◌,
}
use agentworth.Types.{minor}
use agentworth.Store.{empty_store}
use agentworth.Executor.{State}
use agentworth.Examples.{deps, new_year}
use agentworth.X402Proxy.{
  Numbers, X402Requirement, ProxyRequest, ProxyDeps, select_requirement, cheapest, forward,
}
use agentworth.X402Proxy.Cheapest.{Ordered}
use agentworth.X402Proxy.Governed.{Untouched, Authorised, forward-Governed}

abbrev numbers : Numbers
numbers = record {
  Number = ℕ;
  number = λ t. if str_eq t "500" then some 500 else if str_eq t "300" then some 300 else none;
  less = ltb;
  trunc = minor;
}

numbers-Ordered : Ordered numbers
numbers-Ordered = record {
  asym = λ a b h. ground (arith, h);
  irrefl = λ a. ground arith;
  none_less = λ a b c h k. ground (arith, h, k);
}

abbrev offer : String → String → X402Requirement
offer network price = record {
  scheme = "exact";
  network = network;
  asset = "usdc";
  pay_to = "0xshop";
  max_amount_required = price;
  resource = none;
  description = none;
}

abbrev offers : List X402Requirement
offers = offer "base" "500" ∷ offer "base" "free" ∷ offer "base" "300" ∷ offer "solana" "300" ∷ []

chosen : select_requirement numbers offers (some ("base" ∷ [])) ≡ some (offer "base" "300", 300)
unfolding select_requirement cheapest
chosen = refl

abbrev proxy : ProxyDeps
proxy = record {
  numbers = numbers;
  executor = deps;
  ctx = record {
    new_id = "p9";
    clock = new_year;
    rail = none;
    currency_of = none;
    payee_class_of = none;
    networks = some ("base" ∷ []);
  };
  now = new_year;
  upstream = λ req proof. some (record { status = 402; headers = []; body = "offers" });
  build_proof = none;
  parse_challenge = λ body. some offers;
  body_of = λ decision. "";
}

abbrev fresh : State
fresh = record { store = empty_store; log = [] }

abbrev fetch_report : ProxyRequest
fetch_report = record { method = "GET"; url = "/report"; headers = []; body = none }

forward-Governed_example :
    Untouched proxy fetch_report fresh (forward proxy fetch_report fresh)
    ⊎ Authorised proxy fetch_report fresh numbers-Ordered (forward proxy fetch_report fresh)
forward-Governed_example = forward-Governed proxy fetch_report fresh numbers-Ordered
