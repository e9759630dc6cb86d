-- ===== src/Erc7710/Fields.antt =====
-- The bytes of addresses and of fields, for the round trips of src/erc7710/index.ts.
use mathlib.Core.List.{append-nil}
use agentworth.Prelude.{
  ℕ, ◌+◌, ◌-◌, ◌^◌, ◌≤◌, ◌<◌, ◌≡◌, refl, sym, ap, ◌∙◌, true, List, [], ◌∷◌, ◌++◌, String, arith,
  ◌==◌, length, take, drop, take_front, drop_front, All, All-append, length-append,
}
use agentworth.Erc7710.Hex.{
  Result, ok, ◌>>=◌, hex_to_bytes, bytes_to_hex, IsByte, hex_to_bytes-bytes_to_hex,
  hex_to_bytes-IsByte, bind-ok,
}
use agentworth.Erc7710.Words.{Writes, padded, padded-Writes}
use agentworth.Erc7710.Terms.{
  concat_bytes, slice, twenty_bytes, normalize_address, to_number, with_length,
}

-- An address in its normal form, with its bytes.
pub record Address (n : String) : Type 0 where
  pub bytes : List ℕ
  pub text : n ≡ bytes_to_hex bytes
  pub twenty : length bytes ≡ 20
  pub each : All IsByte bytes

pub Address-bytes : (n : String) (a : Address n) → hex_to_bytes n ≡ ok a.bytes
Address-bytes n a = rw a.text (hex_to_bytes-bytes_to_hex a.bytes a.each)

twenty_bytes-Address :
    (addr n : String) (bytes : List ℕ)
    → All IsByte bytes
    → twenty_bytes addr bytes ≡ ok n
    → Address n
twenty_bytes-Address addr n bytes each h = record {
  bytes = bytes;
  text = ground arith;
  twenty = ground arith;
  each = each;
}

pub normalize_address-Address : (addr n : String) → normalize_address addr ≡ ok n → Address n
unfolding normalize_address
normalize_address-Address addr n h =
    let (bytes, e, f) = bind-ok (hex_to_bytes addr) (twenty_bytes addr) n h in
    twenty_bytes-Address addr n bytes (hex_to_bytes-IsByte addr bytes e) f

pub to_number_exact : (n : ℕ) → n < 2 ^ 53 → to_number n ≡ n
unfolding to_number
to_number_exact n h = ground arith

pub slice_front : (n : ℕ) (xs ys : List ℕ) → length xs ≡ n → slice 0 n (xs ++ ys) ≡ xs
slice_front n xs ys e =
    let d : n - 0 ≡ n = omega arith in ap (λ k. take k (xs ++ ys)) d ∙ take_front n xs ys e

pub slice_whole : (n : ℕ) (xs : List ℕ) → length xs ≡ n → slice 0 n xs ≡ xs
slice_whole n xs e = ap (slice 0 n) (sym (append-nil xs)) ∙ slice_front n xs [] e

pub slice_past :
    (n from to : ℕ) (xs ys : List ℕ)
    → length xs ≡ n
    → n ≤ from
    → slice from to (xs ++ ys) ≡ slice (from - n) (to - n) ys
slice_past n from to xs ys e le =
    let past : drop from (xs ++ ys) ≡ drop (from - n) ys =
      drop_front from (from - n) xs ys (omega (arith, e)) in
    let d : to - from ≡ to - n - (from - n) = omega arith in
    ap (take (to - from)) past ∙ ap (λ k. take k (drop (from - n) ys)) d

-- Four fields, one after the other.
module _ (n : ℕ) (t a d s : List ℕ) (ht : length t ≡ n) (ha : length a ≡ 32) (hd : length d ≡ 32)
    (hs : length s ≡ 32) where
  abbrev pub fields : List ℕ
  fields = concat_bytes (t ∷ a ∷ d ∷ s ∷ [])

  pub fields-IsByte : All IsByte t → All IsByte a → All IsByte d → All IsByte s → All IsByte fields
  fields-IsByte bt ba bd bs =
      All-append IsByte t _ bt
        (All-append IsByte a _ ba (All-append IsByte d _ bd (All-append IsByte s [] bs tt)))

  pub length-fields : length fields ≡ n + 96
  length-fields =
      length-append t _
      ∙ omega (
        arith,
        ht,
        length-append a (d ++ (s ++ [])),
        length-append d (s ++ []),
        length-append s [],
        ha,
        hd,
        hs,
      )

  pub second : slice n (n + 32) fields ≡ a
  second =
      let e : n - n ≡ 0 = omega arith in
      let f : n + 32 - n ≡ 32 = omega arith in
      slice_past n n (n + 32) t _ ht (omega arith) ∙ rw (e, f) (slice_front 32 a _ ha)

  pub third : slice (n + 32) (n + 64) fields ≡ d
  third =
      let e : n + 32 - n ≡ 32 = omega arith in
      let f : n + 64 - n ≡ 64 = omega arith in
      slice_past n (n + 32) (n + 64) t _ ht (omega arith)
      ∙ rw (e, f) (slice_past 32 32 64 a _ ha (omega arith) ∙ slice_front 32 d _ hd)

  pub fourth : slice (n + 64) (n + 96) fields ≡ s
  fourth =
      let e : n + 64 - n ≡ 64 = omega arith in
      let f : n + 96 - n ≡ 96 = omega arith in
      slice_past n (n + 64) (n + 96) t _ ht (omega arith)
      ∙ rw (e, f)
          (slice_past 32 64 96 a _ ha (omega arith)
            ∙ slice_past 32 32 64 d _ hd (omega arith)
            ∙ slice_front 32 s _ hs)

-- A number of 32 bytes, as it is written.
pub word_of : (v : ℕ) → v < 2 ^ 256 → Writes 32 v (padded 32 v)
word_of v h = padded-Writes 32 v h (omega arith)

-- Terms of the right length are decoded to what is read of their bytes.
pub decoded :
    {A : Type 0} (n : ℕ) (w : List ℕ) (f : List ℕ → Result A)
    → All IsByte w
    → length w ≡ n
    → (hex_to_bytes (bytes_to_hex w) >>= (λ bytes. with_length n bytes >>= f)) ≡ f w
decoded n w f each size =
    let e : length w == n ≡ true = ground (arith, size) in
    rw (hex_to_bytes-bytes_to_hex w each, e) refl
