-- ===== src/Erc7710/Redemption.antt =====
-- src/erc7710/index.ts, `gateDelegationRedemption`: the caveats of a delegation read back as a mandate,
-- and a redemption under the gate. A normal address has small letters only, so that `toLowerCase`
-- leaves it as it is.
use agentworth.Prelude.{
  ℕ, zero, suc, ◌+◌, ◌-◌, ◌*◌, ◌/◌, ◌%◌, String, Option, none, some, List, [], ◌∷◌, ◌++◌, true,
  false, ltb, get_or, if◌then◌else◌,
}
use Prim.Native.String.{◌++◌ as text_append}
use agentworth.Prelude.Map.{Map, get, set}
use agentworth.Types.{
  Mandate, Period, day, week, month, RailKind, onchain, PayeeScope, payee_class, allowlist, active,
  Amount, PaymentIntent, GateContext, GateDecision,
}
use agentworth.Gate.{evaluate_gate}
use agentworth.Erc7710.Hex.{Result, ok, throws, ◌>>=◌, invalid_time, digit}
use agentworth.Erc7710.Terms.{
  normalize_address, to_number, PeriodGrant, decode_timestamp_terms, decode_native_amount_terms,
  decode_erc20_amount_terms, decode_period_terms, decode_native_period_terms,
  decode_allowed_targets_terms,
}
use agentworth.Erc7710.Delegation.{Caveat, Delegation, EnforcerAddresses, given, period_seconds}

abbrev distance : ℕ → ℕ → ℕ
distance a b = (a - b) + (b - a)

-- The loop of `periodFromSeconds`: the best period so far with its difference, at first infinite.
abbrev closer : ℕ → Period → Period × Option ℕ → Period × Option ℕ
closer seconds p (best, none) = (p, some (distance (period_seconds p) seconds))
closer seconds p (best, some d) =
    let diff = distance (period_seconds p) seconds in
    if ltb diff d then (p, some diff) else (best, some d)

unfoldable pub period_from_seconds : ℕ → Period
period_from_seconds seconds =
    (closer seconds month (closer seconds week (closer seconds day (day, none)))).0

pub record DelegationRedemptionOpts : Type 0 where
  pub target : String
  pub amount : Amount
  pub currency : String
  pub rail : Option RailKind
  pub rationale : String
  pub payee_class : Option String
  pub intent_id : Option String
  pub enforcers : EnforcerAddresses
  pub mandate_id : Option String
  pub mandate_label : Option String

-- `norm(a) ?? ""`
abbrev pub norm : Option String → Result String
norm none = ok ""
norm (some a) = normalize_address a

-- `byAddr`: a later caveat of an enforcer takes the place of an earlier one.
unfoldable pub by_address : List Caveat → Map Caveat → Result (Map Caveat)
by_address [] m = ok m
by_address (c ∷ caveats) m = do
  address ← normalize_address c.enforcer
  by_address caveats (set address c m)

abbrev pub look : Map Caveat → Option String → Result (Option Caveat)
look m a = do address ← norm (given a); ok (get address m)

-- What the caveats say of the authority.
pub record Authority : Type 0 where
  pub expires_unix : Option ℕ
  pub per_tx_cap : Option ℕ
  pub grant : Option PeriodGrant
  pub targets : Option (List String)

abbrev pub read_expiry : Option Caveat → Result (Option ℕ)
read_expiry none = ok none
read_expiry (some c) = do w ← decode_timestamp_terms c.terms; ok (some w.before_unix)

-- The ERC-20 caveat comes before the native one.
abbrev pub read_amount : Option Caveat → Option Caveat → Result (Option ℕ)
read_amount (some c) native = do
  a ← decode_erc20_amount_terms c.terms
  ok (some (to_number a.allowance))
read_amount none (some c) = do a ← decode_native_amount_terms c.terms; ok (some (to_number a))
read_amount none none = ok none

abbrev pub rounded : PeriodGrant → PeriodGrant
rounded g = record g { period_amount = to_number g.period_amount }

abbrev pub read_grant : Option Caveat → Option Caveat → Result (Option PeriodGrant)
read_grant (some c) native = do (token, g) ← decode_period_terms c.terms; ok (some (rounded g))
read_grant none (some c) = do g ← decode_native_period_terms c.terms; ok (some (rounded g))
read_grant none none = ok none

abbrev pub read_targets : Option Caveat → Result (Option (List String))
read_targets none = ok none
read_targets (some c) = do targets ← decode_allowed_targets_terms c.terms; ok (some targets)

unfoldable pub read_authority : EnforcerAddresses → Map Caveat → Result Authority
read_authority e m = do
  ts ← look m (some e.timestamp)
  expires ← read_expiry ts
  erc20_amount ← look m e.erc20_transfer_amount
  native_amount ← look m e.native_token_transfer_amount
  cap ← read_amount erc20_amount native_amount
  erc20_period ← look m e.erc20_period_transfer
  native_period ← look m e.native_token_period_transfer
  grant ← read_grant erc20_period native_period
  allowed ← look m e.allowed_targets
  targets ← read_targets allowed
  ok (record { expires_unix = expires; per_tx_cap = cap; grant = grant; targets = targets })

unfoldable pub decode_authority : List Caveat → EnforcerAddresses → Result Authority
decode_authority caveats e = do m ← by_address caveats []; read_authority e m

-- `new Date(s * 1000).toISOString()` as an instant. A date has at most 8.64e15 milliseconds. From the
-- year 10000 on the text starts with a plus sign, and as a text comes before every date of a year of
-- four digits: the instant 0.
unfoldable pub iso_time : ℕ → Result ℕ
iso_time s =
    if ltb 8_640_000_000_000 s
    then throws invalid_time
    else if ltb s 253_402_300_800
    then ok (s * 1000)
    else ok 0

-- `toString(16)`: the fuel is more than the number of digits.
unfoldable pub base16 : ℕ → ℕ → String → String
base16 zero v after = String.◌∷◌ (digit (v % 16)) after
base16 (suc fuel) v after = elim (ltb v 16) [
  | true ↦ String.◌∷◌ (digit v) after
  | false ↦ base16 fuel (v / 16) (String.◌∷◌ (digit (v % 16)) after)
]

abbrev pub scope_of : Option (List String) → String → PayeeScope
scope_of none c = payee_class c
scope_of (some targets) c = allowlist targets

abbrev pub cap_of : Authority → ℕ
cap_of a = get_or a.per_tx_cap 0

abbrev pub period_cap_of : Authority → ℕ
period_cap_of a = elim a.grant [ none ↦ cap_of a | some g ↦ g.period_amount ]

abbrev pub period_of : Option PeriodGrant → Period
period_of none = month
period_of (some g) = period_from_seconds g.period_duration

abbrev pub start_of : Option PeriodGrant → ℕ
start_of none = 0
start_of (some g) = g.start_date

-- The mandate id that stands for a delegation.
abbrev pub mandate_id_of : Delegation → DelegationRedemptionOpts → String
mandate_id_of d opts = get_or opts.mandate_id (text_append "0x" (base16 d.salt d.salt ""))

unfoldable pub decoded_mandate : Delegation → DelegationRedemptionOpts → Authority → ℕ → ℕ → Mandate
decoded_mandate d opts a granted expires = record {
  id = mandate_id_of d opts;
  label = get_or opts.mandate_label "ERC-7710 delegation";
  scope = scope_of a.targets (get_or opts.payee_class "delegated-spend");
  currency = opts.currency;
  allowed_rails = get_or opts.rail onchain ∷ [];
  per_tx_cap = cap_of a;
  per_period_cap = period_cap_of a;
  period = period_of a.grant;
  granted_at = granted;
  expires_at = expires;
  status = active;
}

unfoldable pub redemption_intent :
    Delegation → DelegationRedemptionOpts → String → ℕ → PaymentIntent
redemption_intent d opts target now = record {
  id = get_or opts.intent_id (text_append (mandate_id_of d opts) (text_append ":" target));
  payee = target;
  payee_class = get_or opts.payee_class "delegated-spend";
  amount = opts.amount;
  currency = opts.currency;
  rail = get_or opts.rail onchain;
  rationale = opts.rationale;
  created_at = now;
}

-- The context of the caller, whose mandates come before the decoded one.
abbrev pub with_mandate : GateContext → Mandate → GateContext
with_mandate ctx m = record ctx { mandates = ctx.mandates ++ (m ∷ []) }

unfoldable pub gate_delegation_redemption :
    Delegation → DelegationRedemptionOpts → GateContext → Result (PaymentIntent × GateDecision)
gate_delegation_redemption d opts ctx = do
  target ← normalize_address opts.target
  a ← decode_authority d.caveats opts.enforcers
  granted ← iso_time (start_of a.grant)
  expires ← iso_time (get_or a.expires_unix 32_503_680_000)
  let intent = redemption_intent d opts target ctx.now
  ok (intent, evaluate_gate intent (with_mandate ctx (decoded_mandate d opts a granted expires)))
