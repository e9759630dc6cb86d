-- ===== src/Erc7710/RoundTrip.antt =====
-- The decoders of src/erc7710/index.ts read back what the encoders wrote.
use agentworth.Prelude.{
  ℕ, ◌+◌, ◌^◌, ◌<◌, ◌≡◌, refl, sym, ap, ◌∙◌, false, List, [], String, arith, ◌==◌, length, All,
}
use agentworth.Erc7710.Hex.{ok, bytes_to_hex, IsByte}
use agentworth.Erc7710.Words.{bytes_to_bigint, Writes, padded, abi_word-padded}
use agentworth.Erc7710.Fields.{
  Address, Address-bytes, normalize_address-Address, to_number_exact, slice_front, fields,
  length-fields, fields-IsByte, second, third, fourth, word_of, decoded,
}
use agentworth.Erc7710.Terms.{
  slice, normalize_address, encode_period_terms, encode_native_period_terms, to_number, PeriodGrant,
  read_period, decode_period_terms, decode_native_period_terms,
}

PeriodGrant-path :
    {a b d e s r : ℕ}
    → a ≡ b
    → d ≡ e
    → s ≡ r
    → Path PeriodGrant
        (record { period_amount = a; period_duration = d; start_date = s })
        (record { period_amount = b; period_duration = e; start_date = r })
PeriodGrant-path p q r = rw (p, q, r) refl

-- The numbers of a period grant behind n bytes.
module _ (amount duration start : ℕ) (small_amount : amount < 2 ^ 256)
    (some_duration : 0 < duration) (small_duration : duration < 2 ^ 53)
    (small_start : start < 2 ^ 53) where
  abbrev grant : PeriodGrant
  grant = record { period_amount = amount; period_duration = duration; start_date = start }

  amount_word : Writes 32 amount (padded 32 amount)
  amount_word = word_of amount small_amount

  duration_word : Writes 32 duration (padded 32 duration)
  duration_word = word_of duration (omega arith)

  start_word : Writes 32 start (padded 32 start)
  start_word = word_of start (omega arith)

  module _ (n : ℕ) (t : List ℕ) (ht : length t ≡ n) (bt : All IsByte t) where
    abbrev written : List ℕ
    written =
        fields n t (padded 32 amount) (padded 32 duration) (padded 32 start) ht amount_word.size
          duration_word.size start_word.size

    written_size : length written ≡ n + 96
    written_size =
        length-fields n t (padded 32 amount) (padded 32 duration) (padded 32 start) ht
          amount_word.size duration_word.size start_word.size

    written-IsByte : All IsByte written
    written-IsByte =
        fields-IsByte n t (padded 32 amount) (padded 32 duration) (padded 32 start) ht
          amount_word.size duration_word.size start_word.size bt amount_word.each duration_word.each
          start_word.each

    read_period-written : read_period n written ≡ grant
    read_period-written =
        PeriodGrant-path
          (ap bytes_to_bigint (
              second n t (padded 32 amount) (padded 32 duration) (padded 32 start) ht
                amount_word.size duration_word.size start_word.size)
            ∙ amount_word.value)
          (ap (λ b. to_number (bytes_to_bigint b))
              (third n t (padded 32 amount) (padded 32 duration) (padded 32 start) ht
                amount_word.size duration_word.size start_word.size)
            ∙ ap to_number duration_word.value
            ∙ to_number_exact duration small_duration)
          (ap (λ b. to_number (bytes_to_bigint b))
              (fourth n t (padded 32 amount) (padded 32 duration) (padded 32 start) ht
                amount_word.size duration_word.size start_word.size)
            ∙ ap to_number start_word.value
            ∙ to_number_exact start small_start)

  module _ (token n : String) (normal : normalize_address token ≡ ok n) where
    abbrev address : Address n
    address = normalize_address-Address token n normal

    abbrev period_bytes : List ℕ
    period_bytes = written 20 address.bytes address.twenty address.each

    encode_period_terms-bytes : encode_period_terms token amount duration start ≡ ok period_bytes
    unfolding encode_period_terms
    encode_period_terms-bytes =
        let e : duration == 0 ≡ false = ground arith in
        rw
          (
            e,
            normal,
            Address-bytes n address,
            abi_word-padded amount small_amount,
            abi_word-padded duration (omega arith),
            abi_word-padded start (omega arith),
          )
          refl

    decode_period_terms-bytes : decode_period_terms (bytes_to_hex period_bytes) ≡ ok (n, grant)
    unfolding decode_period_terms
    decode_period_terms-bytes =
        decoded 116 period_bytes (λ b. ok (bytes_to_hex (slice 0 20 b), read_period 20 b))
          (written-IsByte 20 address.bytes address.twenty address.each)
          (written_size 20 address.bytes address.twenty address.each)
        ∙ rw
            (
              slice_front 20 address.bytes _ address.twenty,
              sym address.text,
              read_period-written 20 address.bytes address.twenty address.each,
            )
            refl

    -- `decodePeriodTerms` reads from the text of what `encodePeriodTerms` wrote the token, in its
    -- normal form, the amount, the duration and the start, when the amount fits a word and the
    -- duration, which is positive, and the start are below 2^53.
    pub decode_period_terms-encode_period_terms :
        (terms : List ℕ) × (encode_period_terms token amount duration start ≡ ok terms)
        × (decode_period_terms (bytes_to_hex terms)
            ≡ ok (
              n,
              record { period_amount = amount; period_duration = duration; start_date = start },
            ))
    decode_period_terms-encode_period_terms =
        (period_bytes, encode_period_terms-bytes, decode_period_terms-bytes)

  -- The same for `encodeNativePeriodTerms`.
  pub decode_native_period_terms-encode_native_period_terms :
      (terms : List ℕ) × (encode_native_period_terms amount duration start ≡ ok terms)
      × (decode_native_period_terms (bytes_to_hex terms)
          ≡ ok (record { period_amount = amount; period_duration = duration; start_date = start }))
  unfolding encode_native_period_terms decode_native_period_terms
  decode_native_period_terms-encode_native_period_terms =
      let e : duration == 0 ≡ false = ground arith in
      (
        written 0 [] refl tt,
        rw
            (
              e,
              abi_word-padded amount small_amount,
              abi_word-padded duration (omega arith),
              abi_word-padded start (omega arith),
            )
            refl,
        decoded 96 (written 0 [] refl tt) (λ b. ok (read_period 0 b)) (written-IsByte 0 [] refl tt)
              (written_size 0 [] refl tt)
            ∙ ap ok (read_period-written 0 [] refl tt),
      )
