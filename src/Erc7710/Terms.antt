-- ===== src/Erc7710/Terms.antt =====
-- The `terms` encoders and decoders of src/erc7710/index.ts.
use agentworth.Prelude.{
  ℕ, zero, suc, ◌+◌, ◌-◌, ◌*◌, ◌/◌, ◌%◌, ◌^◌, ◌&&◌, ◌||◌, List, [], ◌∷◌, ◌++◌, String, not, ltb,
  ◌==◌, if◌then◌else◌, length, take, drop,
}
use agentworth.Erc7710.Hex.{
  Result, ok, throws, ◌>>=◌, invalid_address, not_positive, no_target, wrong_length, hex_to_bytes,
  bytes_to_hex,
}
use agentworth.Erc7710.Words.{abi_word, pad_word, bytes_to_bigint}

-- `concatBytes`
abbrev pub concat_bytes : List (List ℕ) → List ℕ
concat_bytes [] = []
concat_bytes (bytes ∷ rest) = bytes ++ concat_bytes rest

-- `bytes.slice(from, to)`
abbrev pub slice : ℕ → ℕ → List ℕ → List ℕ
slice from to bytes = take (to - from) (drop from bytes)

abbrev pub twenty_bytes : String → List ℕ → Result String
twenty_bytes addr bytes =
    if length bytes == 20 then ok (bytes_to_hex bytes) else throws (invalid_address addr)

-- `normalizeAddress`
unfoldable pub normalize_address : String → Result String
normalize_address addr = do bytes ← hex_to_bytes addr; twenty_bytes addr bytes

unfoldable pub encode_timestamp_terms : ℕ → ℕ → Result (List ℕ)
encode_timestamp_terms before after = do
  a ← abi_word after
  b ← abi_word before
  ok (drop 16 a ++ drop 16 b)

unfoldable pub encode_native_amount_terms : ℕ → Result (List ℕ)
encode_native_amount_terms allowance = abi_word allowance

unfoldable pub encode_erc20_amount_terms : String → ℕ → Result (List ℕ)
encode_erc20_amount_terms token allowance = do
  address ← normalize_address token
  bytes ← hex_to_bytes address
  t ← pad_word bytes
  a ← abi_word allowance
  ok (concat_bytes (t ∷ a ∷ []))

unfoldable pub encode_period_terms : String → ℕ → ℕ → ℕ → Result (List ℕ)
encode_period_terms token amount duration start = if duration == 0 then throws not_positive else do
  address ← normalize_address token
  t ← hex_to_bytes address
  a ← abi_word amount
  d ← abi_word duration
  s ← abi_word start
  ok (concat_bytes (t ∷ a ∷ d ∷ s ∷ []))

unfoldable pub encode_native_period_terms : ℕ → ℕ → ℕ → Result (List ℕ)
encode_native_period_terms amount duration start = if duration == 0 then throws not_positive else do
  a ← abi_word amount
  d ← abi_word duration
  s ← abi_word start
  ok (concat_bytes (a ∷ d ∷ s ∷ []))

-- The bytes of each address of a list.
unfoldable pub address_bytes : List String → Result (List (List ℕ))
address_bytes [] = ok []
address_bytes (a ∷ addresses) = do
  address ← normalize_address a
  bytes ← hex_to_bytes address
  rest ← address_bytes addresses
  ok (bytes ∷ rest)

unfoldable pub encode_allowed_targets_terms : List String → Result (List ℕ)
encode_allowed_targets_terms [] = throws no_target
encode_allowed_targets_terms (a ∷ addresses) = do
  each ← address_bytes (a ∷ addresses)
  ok (concat_bytes each)

-- `Number` of a big integer: 53 significant bits, ties to even.
unfoldable pub unit_of : ℕ → ℕ → ℕ
unit_of zero n = 1
unit_of (suc fuel) n = let rest = unit_of fuel (n / 2) in if ltb n (2 ^ 53) then 1 else 2 * rest

abbrev round_even : ℕ → ℕ → ℕ
round_even n u =
    let q = n / u in
    let twice = 2 * (n % u) in
    if ltb u twice || (twice == u && q % 2 == 1) then (q + 1) * u else q * u

-- 203 halvings bring a number below 2 ^ 256 below 2 ^ 53.
unfoldable pub to_number : ℕ → ℕ
to_number n = if ltb n (2 ^ 53) then n else round_even n (unit_of 203 n)

-- The decoders read the bytes of the terms when there are as many as expected.
abbrev pub with_length : ℕ → List ℕ → Result (List ℕ)
with_length n b = if length b == n then ok b else throws (wrong_length n (length b))

pub record Window : Type 0 where
  pub after_unix : ℕ
  pub before_unix : ℕ

unfoldable pub decode_timestamp_terms : String → Result Window
decode_timestamp_terms terms = do
  bytes ← hex_to_bytes terms
  b ← with_length 32 bytes
  ok (record {
    after_unix = to_number (bytes_to_bigint (slice 0 16 b));
    before_unix = to_number (bytes_to_bigint (slice 16 32 b));
  })

unfoldable pub decode_native_amount_terms : String → Result ℕ
decode_native_amount_terms terms = do
  bytes ← hex_to_bytes terms
  b ← with_length 32 bytes
  ok (bytes_to_bigint b)

pub record TokenAmount : Type 0 where
  pub token : String
  pub allowance : ℕ

unfoldable pub decode_erc20_amount_terms : String → Result TokenAmount
decode_erc20_amount_terms terms = do
  bytes ← hex_to_bytes terms
  b ← with_length 64 bytes
  ok (record { token = bytes_to_hex (slice 12 32 b); allowance = bytes_to_bigint (slice 32 64 b) })

pub record PeriodGrant : Type 0 where
  pub period_amount : ℕ
  pub period_duration : ℕ
  pub start_date : ℕ

-- The number of each 32 bytes from a place on: an amount, a duration and a date.
abbrev pub read_period : ℕ → List ℕ → PeriodGrant
read_period from b = record {
  period_amount = bytes_to_bigint (slice from (from + 32) b);
  period_duration = to_number (bytes_to_bigint (slice (from + 32) (from + 64) b));
  start_date = to_number (bytes_to_bigint (slice (from + 64) (from + 96) b));
}

unfoldable pub decode_period_terms : String → Result (String × PeriodGrant)
decode_period_terms terms = do
  bytes ← hex_to_bytes terms
  b ← with_length 116 bytes
  ok (bytes_to_hex (slice 0 20 b), read_period 20 b)

unfoldable pub decode_native_period_terms : String → Result PeriodGrant
decode_native_period_terms terms = do
  bytes ← hex_to_bytes terms
  b ← with_length 96 bytes
  ok (read_period 0 b)

-- The loop over pieces of 20 bytes; there are no more of them than bytes.
unfoldable pub pieces : ℕ → List ℕ → List String
pieces fuel [] = []
pieces zero (b ∷ bytes) = []
pieces (suc fuel) (b ∷ bytes) =
    bytes_to_hex (take 20 (b ∷ bytes)) ∷ pieces fuel (drop 20 (b ∷ bytes))

unfoldable pub decode_allowed_targets_terms : String → Result (List String)
decode_allowed_targets_terms terms = do
  b ← hex_to_bytes terms
  if length b == 0 || not (length b % 20 == 0)
      then throws (wrong_length 20 (length b))
      else ok (pieces (length b) b)
