-- ===== src/Erc7710/Amounts.antt =====
-- Round trips of the timestamp and amount terms of src/erc7710/index.ts.
use agentworth.Prelude.{
  ℕ, ◌^◌, ◌<◌, ◌≡◌, refl, sym, ap, ◌∙◌, List, [], ◌∷◌, ◌++◌, String, arith, length, take_front,
  All-append, length-append,
}
use agentworth.Erc7710.Hex.{ok, bytes_to_hex, IsByte}
use agentworth.Erc7710.Words.{
  bytes_to_bigint, Writes, padded, padded-Writes, abi_word-padded, drop-padded, pad_word-short,
  zeros, zeros-IsByte,
}
use agentworth.Erc7710.Terms.{
  slice, concat_bytes, normalize_address, encode_timestamp_terms, encode_native_amount_terms,
  encode_erc20_amount_terms, to_number, Window, decode_timestamp_terms, decode_native_amount_terms,
  TokenAmount, decode_erc20_amount_terms,
}
use agentworth.Erc7710.Fields.{
  Address-bytes, normalize_address-Address, to_number_exact, slice_front, slice_past, slice_whole,
  word_of, decoded,
}

-- A half word: the 16 bytes of a date.
half_of : (v : ℕ) → v < 2 ^ 53 → Writes 16 v (padded 16 v)
half_of v h = padded-Writes 16 v (omega arith) (omega arith)

Window-path :
    {a b c d : ℕ}
    → a ≡ b
    → c ≡ d
    → Path Window
        (record { after_unix = a; before_unix = c })
        (record { after_unix = b; before_unix = d })
Window-path p q = rw (p, q) refl

-- What `decodeTimestampTerms` reads from the text of what `encodeTimestampTerms` wrote.
pub decode_timestamp_terms-encode_timestamp_terms :
    (before after : ℕ)
    → before < 2 ^ 53
    → after < 2 ^ 53
    → (terms : List ℕ) × (encode_timestamp_terms before after ≡ ok terms)
      × (decode_timestamp_terms (bytes_to_hex terms)
          ≡ ok (record { after_unix = after; before_unix = before }))
unfolding encode_timestamp_terms decode_timestamp_terms
decode_timestamp_terms-encode_timestamp_terms before after hb ha =
    let b = half_of before hb in
    let a = half_of after ha in
    let bytes = padded 16 after ++ padded 16 before in
    let late : slice 16 32 bytes ≡ padded 16 before =
      slice_past 16 16 32 (padded 16 after) (padded 16 before) a.size (omega arith)
      ∙ slice_whole 16 (padded 16 before) b.size in
    (
      bytes,
      rw
          (
            abi_word-padded after (omega arith),
            abi_word-padded before (omega arith),
            drop-padded after (omega arith),
            drop-padded before (omega arith),
          )
          refl,
      decoded 32 bytes _ (All-append IsByte (padded 16 after) (padded 16 before) a.each b.each)
            (length-append (padded 16 after) (padded 16 before) ∙ omega (arith, a.size, b.size))
          ∙ ap ok (
              Window-path
                (ap (λ w. to_number (bytes_to_bigint w)) (slice_front 16 (padded 16 after) _ a.size)
                  ∙ ap to_number a.value
                  ∙ to_number_exact after ha)
                (ap (λ w. to_number (bytes_to_bigint w)) late
                  ∙ ap to_number b.value
                  ∙ to_number_exact before hb)),
    )

pub decode_native_amount_terms-encode_native_amount_terms :
    (allowance : ℕ)
    → allowance < 2 ^ 256
    → (terms : List ℕ) × (encode_native_amount_terms allowance ≡ ok terms)
      × (decode_native_amount_terms (bytes_to_hex terms) ≡ ok allowance)
unfolding encode_native_amount_terms decode_native_amount_terms
decode_native_amount_terms-encode_native_amount_terms allowance h =
    let w = word_of allowance h in
    (
      padded 32 allowance,
      abi_word-padded allowance h,
      decoded 32 (padded 32 allowance) (λ b. ok (bytes_to_bigint b)) w.each w.size ∙ ap ok w.value,
    )

TokenAmount-path :
    {a b : String} {c d : ℕ}
    → a ≡ b
    → c ≡ d
    → Path TokenAmount (record { token = a; allowance = c }) (record { token = b; allowance = d })
TokenAmount-path p q = rw (p, q) refl

pub decode_erc20_amount_terms-encode_erc20_amount_terms :
    (token n : String) (allowance : ℕ)
    → normalize_address token ≡ ok n
    → allowance < 2 ^ 256
    → (terms : List ℕ) × (encode_erc20_amount_terms token allowance ≡ ok terms)
      × (decode_erc20_amount_terms (bytes_to_hex terms)
          ≡ ok (record { token = n; allowance = allowance }))
unfolding encode_erc20_amount_terms decode_erc20_amount_terms
decode_erc20_amount_terms-encode_erc20_amount_terms token n allowance normal h =
    let w = word_of allowance h in
    let address = normalize_address-Address token n normal in
    let rest = padded 32 allowance ++ [] in
    let front = zeros 12 ++ address.bytes in
    let wide : length front ≡ 32 =
      length-append (zeros 12) address.bytes ∙ omega (arith, address.twenty) in
    let bytes = concat_bytes (front ∷ padded 32 allowance ∷ []) in
    (
      bytes,
      rw
          (
            normal,
            Address-bytes n address,
            pad_word-short address.bytes (omega (arith, address.twenty)),
            abi_word-padded allowance h,
            address.twenty,
          )
          refl,
      decoded 64 bytes _
            (All-append IsByte front rest
              (All-append IsByte (zeros 12) address.bytes (zeros-IsByte 12) address.each)
              (All-append IsByte (padded 32 allowance) [] w.each tt))
            (length-append front rest
              ∙ omega (arith, wide, length-append (padded 32 allowance) [], w.size))
          ∙ ap ok (
              TokenAmount-path
                (ap bytes_to_hex (take_front 20 address.bytes rest address.twenty)
                  ∙ sym address.text)
                (ap bytes_to_bigint (
                    slice_past 32 32 64 front rest wide (omega arith)
                    ∙ slice_front 32 (padded 32 allowance) [] w.size)
                  ∙ w.value)),
    )
