-- ===== src/Erc7710/Targets.antt =====
-- The round trip of the allowed targets of src/erc7710/index.ts.
use agentworth.Prelude.{
  ℕ, zero, suc, ◌*◌, ◌%◌, ◌≤◌, ◌≡◌, refl, sym, ap, ◌∙◌, List, [], ◌∷◌, ◌++◌, String, true, false,
  arith, ◌==◌, length, take_front, drop_front, All, All-append, length-append,
}
use agentworth.Erc7710.Hex.{ok, bytes_to_hex, IsByte, hex_to_bytes-bytes_to_hex}
use agentworth.Erc7710.Terms.{
  concat_bytes, normalize_address, address_bytes, encode_allowed_targets_terms, pieces,
  decode_allowed_targets_terms,
}
use agentworth.Erc7710.Fields.{Address-bytes, normalize_address-Address}

-- The normal forms of the addresses, one by one.
abbrev pub Normals : List String → List String → Type 0
Normals [] [] = Unit
Normals [] (n ∷ ns) = ⊥
Normals (a ∷ addresses) [] = ⊥
Normals (a ∷ addresses) (n ∷ ns) = (normalize_address a ≡ ok n) × Normals addresses ns

-- What the bytes of the addresses are.
record Packed (addresses ns : List String) : Type 0 where
  each : List (List ℕ)
  written : address_bytes addresses ≡ ok each
  bytes : All IsByte (concat_bytes each)
  size : length (concat_bytes each) ≡ 20 * length addresses
  cut : (fuel : ℕ) → length (concat_bytes each) ≤ fuel → pieces fuel (concat_bytes each) ≡ ns

pieces_step :
    (fuel : ℕ) (xs ys : List ℕ)
    → length xs ≡ 20
    → pieces (suc fuel) (xs ++ ys) ≡ bytes_to_hex xs ∷ pieces fuel ys
unfolding pieces
pieces_step fuel [] ys e = absurd (omega (arith, e))
pieces_step fuel (x ∷ xs) ys e =
    rw (take_front 20 (x ∷ xs) ys e, drop_front 20 0 (x ∷ xs) ys (omega (arith, e))) refl

pieces_fuel :
    (fuel : ℕ) (xs ys : List ℕ) (n : String) (ns : List String)
    → length xs ≡ 20
    → bytes_to_hex xs ≡ n
    → ((left : ℕ) → length ys ≤ left → pieces left ys ≡ ns)
    → length (xs ++ ys) ≤ fuel
    → pieces fuel (xs ++ ys) ≡ n ∷ ns
pieces_fuel zero xs ys n ns e text cut le = absurd (omega (arith, length-append xs ys, e, le))
pieces_fuel (suc fuel) xs ys n ns e text cut le =
    pieces_step fuel xs ys e ∙ rw (text, cut fuel (omega (arith, length-append xs ys, e, le))) refl

Normals-Packed : (addresses ns : List String) → Normals addresses ns → Packed addresses ns
unfolding address_bytes pieces
Normals-Packed [] [] h = record {
  each = [];
  written = refl;
  bytes = tt;
  size = omega arith;
  cut = λ fuel le. refl;
}
Normals-Packed [] (n ∷ ns) h = absurd h
Normals-Packed (a ∷ addresses) [] h = absurd h
Normals-Packed (a ∷ addresses) (n ∷ ns) (normal, h) =
    let first = normalize_address-Address a n normal in
    let rest = Normals-Packed addresses ns h in
    let total = length-append first.bytes (concat_bytes rest.each) in
    record {
      each = first.bytes ∷ rest.each;
      written = rw (normal, Address-bytes n first, rest.written) refl;
      bytes = All-append IsByte first.bytes (concat_bytes rest.each) first.each rest.bytes;
      size = omega (arith, total, first.twenty, rest.size);
      cut = λ fuel le.
          pieces_fuel fuel first.bytes (concat_bytes rest.each) n ns first.twenty (sym first.text)
            rest.cut le;
    }

-- `decodeAllowedTargetsTerms` reads from the text of what `encodeAllowedTargetsTerms` wrote the
-- addresses in their normal form, in their order; there is one at least, and each has a normal form.
pub allowed_targets_roundtrip :
    (a : String) (addresses ns : List String)
    → Normals (a ∷ addresses) ns
    → (terms : List ℕ) × (encode_allowed_targets_terms (a ∷ addresses) ≡ ok terms)
      × (decode_allowed_targets_terms (bytes_to_hex terms) ≡ ok ns)
unfolding encode_allowed_targets_terms decode_allowed_targets_terms
allowed_targets_roundtrip a addresses ns h =
    let p = Normals-Packed (a ∷ addresses) ns h in
    let bytes = concat_bytes p.each in
    let some_bytes : length bytes == 0 ≡ false = ground (arith, p.size) in
    let whole : length bytes % 20 == 0 ≡ true = ground (arith, p.size) in
    (
      bytes,
      rw p.written refl,
      rw (hex_to_bytes-bytes_to_hex bytes p.bytes, some_bytes, whole)
          (ap ok (p.cut (length bytes) (omega arith))),
    )
