-- ===== src/Erc7710/Delegation.antt =====
-- src/erc7710/index.ts, `mandateToDelegation`: a mandate as a delegation with caveats. The dates of a
-- mandate are instants, so the check that they are valid has no counterpart.
use Prim.Native.Nat.{bit_xor}
use agentworth.Prelude.{
  ℕ, ◌*◌, ◌/◌, ◌%◌, ◌^◌, String, Option, none, some, List, [], ◌∷◌, str_eq, get_or, if◌then◌else◌,
}
use agentworth.Prelude.Text.{units}
use agentworth.Types.{Mandate, Period, day, week, month, PayeeScope, payee_class, allowlist}
use agentworth.Erc7710.Hex.{Result, ok, throws, ◌>>=◌, missing_enforcer, bytes_to_hex}
use agentworth.Erc7710.Terms.{
  normalize_address, encode_timestamp_terms, encode_native_amount_terms, encode_erc20_amount_terms,
  encode_period_terms, encode_native_period_terms, encode_allowed_targets_terms,
}

pub record Caveat : Type 0 where
  pub enforcer : String
  pub terms : String
  pub args : String

pub record Delegation : Type 0 where
  pub delegate : String
  pub delegator : String
  pub authority : String
  pub caveats : List Caveat
  pub salt : ℕ
  pub signature : String

pub record EnforcerAddresses : Type 0 where
  pub timestamp : String
  pub native_token_transfer_amount : Option String
  pub erc20_transfer_amount : Option String
  pub erc20_period_transfer : Option String
  pub native_token_period_transfer : Option String
  pub allowed_targets : Option String

-- ROOT_AUTHORITY
abbrev pub root_authority : String
root_authority = "0xffffffffffffffffffffffffffffffffffffffffffffffffffffffffffffffff"

-- PERIOD_SECONDS
abbrev pub period_seconds : Period → ℕ
period_seconds day = 86_400
period_seconds week = 604_800
period_seconds month = 2_592_000

pub record MandateToDelegationOpts : Type 0 where
  pub delegate : String
  pub delegator : String
  pub enforcers : EnforcerAddresses
  pub token : Option String
  pub salt : Option ℕ
  pub period_seconds_override : Option ℕ

-- FNV-1a over UTF-16 units, from a hash on.
unfoldable pub fold_units : ℕ → List ℕ → ℕ
fold_units hash [] = hash
fold_units hash (c ∷ rest) = fold_units (bit_xor hash c * 0x100_0000_01b3 % 2 ^ 64) rest

unfoldable pub deterministic_salt : String → ℕ
deterministic_salt id = fold_units 0xcbf2_9ce4_8422_2325 (units id)

-- An optional text that is absent or empty counts as absent.
abbrev pub given : Option String → Option String
given none = none
given (some a) = if str_eq a "" then none else some a

abbrev pub required : Option String → Result String
required none = throws missing_enforcer
required (some a) = ok a

abbrev pub caveat : String → Result (List ℕ) → Result Caveat
caveat enforcer terms = do
  address ← normalize_address enforcer
  bytes ← terms
  ok (record { enforcer = address; terms = bytes_to_hex bytes; args = "0x" })

-- perTxCap: the ERC-20 enforcer for a token, else the native one.
unfoldable pub amount_caveat : Option String → EnforcerAddresses → ℕ → Result Caveat
amount_caveat none e cap = do
  enforcer ← required (given e.native_token_transfer_amount)
  caveat enforcer (encode_native_amount_terms cap)
amount_caveat (some token) e cap = do
  enforcer ← required (given e.erc20_transfer_amount)
  caveat enforcer (encode_erc20_amount_terms token cap)

-- perPeriodCap, the duration of the period and grantedAt.
unfoldable pub period_caveat : Option String → EnforcerAddresses → ℕ → ℕ → ℕ → Result Caveat
period_caveat none e cap duration start = do
  enforcer ← required (given e.native_token_period_transfer)
  caveat enforcer (encode_native_period_terms cap duration start)
period_caveat (some token) e cap duration start = do
  enforcer ← required (given e.erc20_period_transfer)
  caveat enforcer (encode_period_terms token cap duration start)

-- The targets of an allowlist.
unfoldable pub target_caveats : PayeeScope → EnforcerAddresses → Result (List Caveat)
target_caveats (payee_class c) e = ok []
target_caveats (allowlist values) e = do
  enforcer ← required (given e.allowed_targets)
  c ← caveat enforcer (encode_allowed_targets_terms values)
  ok (c ∷ [])

unfoldable pub mandate_to_delegation : Mandate → MandateToDelegationOpts → Result Delegation
mandate_to_delegation m opts = do
  expiry ← caveat opts.enforcers.timestamp (encode_timestamp_terms (m.expires_at / 1000) 0)
  amount ← amount_caveat (given opts.token) opts.enforcers m.per_tx_cap
  budget ←
      period_caveat (given opts.token) opts.enforcers m.per_period_cap
        (get_or opts.period_seconds_override (period_seconds m.period)) (m.granted_at / 1000)
  targets ← target_caveats m.scope opts.enforcers
  delegate ← normalize_address opts.delegate
  delegator ← normalize_address opts.delegator
  ok (record {
    delegate = delegate;
    delegator = delegator;
    authority = root_authority;
    caveats = expiry ∷ amount ∷ budget ∷ targets;
    salt = get_or opts.salt (deterministic_salt m.id);
    signature = "0x";
  })
