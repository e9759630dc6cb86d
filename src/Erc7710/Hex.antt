-- ===== src/Erc7710/Hex.antt =====
-- The byte and hex helpers of src/erc7710/index.ts. A byte array is a list of numbers below 256, a hex
-- string is a text, read by its UTF-16 units.
use Prim.Native.Char.{Char, code}
use Prim.Native.String.{String}
use agentworth.Prelude.{
  ℕ, zero, suc, ◌+◌, ◌-◌, ◌*◌, ◌/◌, ◌%◌, ◌<◌, ◌≡◌, refl, ap, ◌∙◌, subst, ◌&&◌, ◌||◌, Option, none,
  some, List, [], ◌∷◌, arith, leb, ltb, lt→ltb, ◌==◌, if◌then◌else◌, length, All,
}
use agentworth.Prelude.Text.{is_space, char_units, units}

-- What a function of the module throws.
pub data Fault : Type 0 where
  invalid_hex invalid_address : String → Fault
  exceeds_word : Fault
  not_positive : Fault
  no_target : Fault
  missing_enforcer : Fault
  wrong_length : ℕ → ℕ → Fault
  invalid_time : Fault

pub data Result {ℓ} (A : Type ℓ) : Type ℓ where
  ok : A → Result A
  throws : Fault → Result A

infixl 5 ◌>>=◌
abbrev pub ◌>>=◌ {ℓ κ} : {A : Type ℓ} {B : Type κ} → Result A → (A → Result B) → Result B
ok a >>= f = f a
throws e >>= f = throws e

-- A sequence of steps that ends well has had every step end well.
pub bind-ok :
    {A : Type 0} {B : Type 0} (r : Result A) (f : A → Result B) (b : B)
    → (r >>= f) ≡ ok b
    → (a : A) × (r ≡ ok a) × (f a ≡ ok b)
bind-ok (ok a) f b h = (a, refl, h)
bind-ok (throws e) f b h = cc

pub ok-inj : {A : Type 0} {x y : A} → ok x ≡ ok y → x ≡ y
ok-inj h = cc

abbrev pub IsByte : ℕ → Type 0
IsByte b = b < 256

abbrev hex_value : ℕ → Option ℕ
hex_value c =
    if leb b'0' c && leb c b'9'
    then some (c - 48)
    else if leb b'a' c && leb c b'f'
    then some (c - 87)
    else if leb b'A' c && leb c b'F'
    then some (c - 55)
    else none

-- `Number.parseInt` of two units, in base 16, as a Uint8Array stores it: the value of the leading
-- digits after white space, a sign or `0x`; `none` is NaN.
abbrev parse_pair : Option ℕ → Option ℕ → ℕ → ℕ → Option ℕ
parse_pair (some x) (some y) a b = some (16 * x + y)
parse_pair (some x) none a b = if a == b'0' && (b == b'x' || b == b'X') then none else some x
parse_pair none (some y) a b =
    if is_space a || a == b'+' then some y else if a == b'-' then some ((256 - y) % 256) else none
parse_pair none none a b = none

unfoldable pub parse_byte : ℕ → ℕ → Option ℕ
parse_byte a b = parse_pair (hex_value a) (hex_value b) a b

abbrev pub cons_byte : Option ℕ → Option (List ℕ) → Option (List ℕ)
cons_byte none rest = none
cons_byte (some v) none = none
cons_byte (some v) (some vs) = some (v ∷ vs)

-- The loop of `hexToBytes`, over an even number of units.
unfoldable pub parse_bytes : List ℕ → Option (List ℕ)
parse_bytes [] = some []
parse_bytes (a ∷ []) = some []
parse_bytes (a ∷ b ∷ s) = let rest = parse_bytes s in cons_byte (parse_byte a b) rest

abbrev pub strip_prefix : List ℕ → List ℕ
strip_prefix [] = []
strip_prefix (a ∷ []) = a ∷ []
strip_prefix (a ∷ b ∷ s) = if a == b'0' && b == b'x' then s else a ∷ b ∷ s

abbrev pub even_up : List ℕ → List ℕ
even_up h = if length h % 2 == 0 then h else b'0' ∷ h

abbrev pub parsed : String → Option (List ℕ) → Result (List ℕ)
parsed hex none = throws (invalid_hex hex)
parsed hex (some bytes) = ok bytes

-- `hexToBytes`
unfoldable pub hex_to_bytes : String → Result (List ℕ)
hex_to_bytes hex = parsed hex (parse_bytes (even_up (strip_prefix (units hex))))

-- A digit of `toString(16)`: a lookup.
abbrev char_at : List Char → ℕ → Char
char_at [] n = "f"
char_at (c ∷ cs) zero = c
char_at (c ∷ cs) (suc n) = char_at cs n

abbrev hex_digits : List Char
hex_digits =
    "0" ∷ "1" ∷ "2" ∷ "3" ∷ "4" ∷ "5" ∷ "6" ∷ "7" ∷ "8" ∷ "9" ∷ "a" ∷ "b" ∷ "c" ∷ "d" ∷ "e" ∷ "f"
    ∷ []

abbrev pub digit : ℕ → Char
digit n = char_at hex_digits n

-- Every byte as two digits.
unfoldable pub hex_text : List ℕ → String
hex_text [] = ""
hex_text (b ∷ bytes) = String.◌∷◌ (digit (b / 16)) (String.◌∷◌ (digit (b % 16)) (hex_text bytes))

-- `bytesToHex`
unfoldable pub bytes_to_hex : List ℕ → String
bytes_to_hex bytes = String.◌∷◌ "0" (String.◌∷◌ "x" (hex_text bytes))

-- A digit as a number, in plain arithmetic.
unfoldable digit_code : ℕ → ℕ
digit_code n = if ltb n 10 then 48 + n else 87 + n

code-digit : (n : ℕ) → n < 16 → code (digit n) ≡ digit_code n
unfolding digit_code
code-digit zero h = refl
code-digit (suc zero) h = refl
code-digit (suc (suc zero)) h = refl
code-digit (suc (suc (suc zero))) h = refl
code-digit (suc (suc (suc (suc zero)))) h = refl
code-digit (suc (suc (suc (suc (suc zero))))) h = refl
code-digit (suc (suc (suc (suc (suc (suc zero)))))) h = refl
code-digit (suc (suc (suc (suc (suc (suc (suc zero))))))) h = refl
code-digit (suc (suc (suc (suc (suc (suc (suc (suc zero)))))))) h = refl
code-digit (suc (suc (suc (suc (suc (suc (suc (suc (suc zero))))))))) h = refl
code-digit (suc (suc (suc (suc (suc (suc (suc (suc (suc (suc zero)))))))))) h = refl
code-digit (suc (suc (suc (suc (suc (suc (suc (suc (suc (suc (suc zero))))))))))) h = refl
code-digit (suc (suc (suc (suc (suc (suc (suc (suc (suc (suc (suc (suc zero)))))))))))) h = refl
code-digit (suc (suc (suc (suc (suc (suc (suc (suc (suc (suc (suc (suc (suc zero))))))))))))) h =
    refl
code-digit (suc (suc (suc (suc (suc (suc (suc (suc (suc (suc (suc (suc (suc (suc zero))))))))))))))
      h =
    refl
code-digit
      (suc (suc (suc (suc (suc (suc (suc (suc (suc (suc (suc (suc (suc (suc (suc zero)))))))))))))))
      h =
    refl
code-digit
      (suc
        (suc (suc (suc (suc (suc (suc (suc (suc (suc (suc (suc (suc (suc (suc (suc n))))))))))))))))
      h =
    absurd (omega arith)

hex_value-digit_code : (n : ℕ) → n < 16 → hex_value (digit_code n) ≡ some n
unfolding digit_code
hex_value-digit_code n h = ground arith

char_units-digit : (n : ℕ) → n < 16 → char_units (digit n) ≡ digit_code n ∷ []
unfolding char_units digit_code
char_units-digit n h = rw (code-digit n h, lt→ltb (digit_code n) 0x10000 (ground arith)) refl

parse_pair-some :
    {o p : Option ℕ} (a b : ℕ) {x y : ℕ}
    → o ≡ some x
    → p ≡ some y
    → parse_pair o p a b ≡ some (16 * x + y)
parse_pair-some a b e f = rw (e, f) refl

parse_byte-digits :
    (b : ℕ) → b < 256 → parse_byte (digit_code (b / 16)) (digit_code (b % 16)) ≡ some b
unfolding parse_byte
parse_byte-digits b h =
    parse_pair-some _ _ (hex_value-digit_code (b / 16) (omega arith))
      (hex_value-digit_code (b % 16) (omega arith))
    ∙ ap some (omega arith)

-- The units of two digits each.
abbrev digits : List ℕ → List ℕ
digits [] = []
digits (b ∷ bytes) = digit_code (b / 16) ∷ digit_code (b % 16) ∷ digits bytes

units-hex_text : (bytes : List ℕ) → All IsByte bytes → units (hex_text bytes) ≡ digits bytes
unfolding units hex_text
units-hex_text [] h = refl
units-hex_text (b ∷ bytes) (hb, h) =
    rw (char_units-digit (b / 16) (omega arith), char_units-digit (b % 16) (omega arith))
      (ap (λ s. digit_code (b / 16) ∷ digit_code (b % 16) ∷ s) (units-hex_text bytes h))

parse_bytes-digits : (bytes : List ℕ) → All IsByte bytes → parse_bytes (digits bytes) ≡ some bytes
unfolding parse_bytes
parse_bytes-digits [] h = refl
parse_bytes-digits (b ∷ bytes) (hb, h) =
    rw (parse_byte-digits b hb, parse_bytes-digits bytes h, parse_bytes) refl

even-digits : (bytes : List ℕ) → length (digits bytes) % 2 ≡ 0
even-digits [] = refl
even-digits (b ∷ bytes) = omega (arith, even-digits bytes)

hex_to_bytes-units :
    (hex : String) (u bytes : List ℕ)
    → units hex ≡ u
    → parse_bytes (even_up (strip_prefix u)) ≡ some bytes
    → hex_to_bytes hex ≡ ok bytes
unfolding hex_to_bytes
hex_to_bytes-units hex u bytes e h =
    ap (λ v. parsed hex (parse_bytes (even_up (strip_prefix v)))) e ∙ ap (parsed hex) h

units-bytes_to_hex :
    (bytes : List ℕ) → All IsByte bytes → units (bytes_to_hex bytes) ≡ b'0' ∷ b'x' ∷ digits bytes
unfolding bytes_to_hex units char_units
units-bytes_to_hex bytes h = ap (λ s. b'0' ∷ b'x' ∷ s) (units-hex_text bytes h)

-- `hexToBytes` reads back the bytes that `bytesToHex` wrote.
pub hex_to_bytes-bytes_to_hex :
    (bytes : List ℕ) → All IsByte bytes → hex_to_bytes (bytes_to_hex bytes) ≡ ok bytes
hex_to_bytes-bytes_to_hex bytes h =
    hex_to_bytes-units (bytes_to_hex bytes) _ bytes (units-bytes_to_hex bytes h)
      (rw (even-digits bytes) (parse_bytes-digits bytes h))

hex_value-lt : (c v : ℕ) → hex_value c ≡ some v → v < 16
hex_value-lt c v h = ground arith

parse_byte-IsByte : (a b v : ℕ) → parse_byte a b ≡ some v → IsByte v
unfolding parse_byte
parse_byte-IsByte a b v h = ground (arith, hex_value-lt a, hex_value-lt b)

some-inj : {A : Type 0} {x y : A} → some x ≡ some y → x ≡ y
some-inj h = cc

cons_byte-IsByte :
    (o : Option ℕ) (rest : Option (List ℕ)) (bytes : List ℕ)
    → ((v : ℕ) → o ≡ some v → IsByte v)
    → ((vs : List ℕ) → rest ≡ some vs → All IsByte vs)
    → cons_byte o rest ≡ some bytes
    → All IsByte bytes
cons_byte-IsByte none rest bytes f g h = cc
cons_byte-IsByte (some v) none bytes f g h = cc
cons_byte-IsByte (some v) (some vs) bytes f g h =
    subst (All IsByte) (some-inj h) (f v refl, g vs refl)

parse_bytes-IsByte : (s bytes : List ℕ) → parse_bytes s ≡ some bytes → All IsByte bytes
unfolding parse_bytes
parse_bytes-IsByte [] bytes h = subst (All IsByte) (some-inj h) tt
parse_bytes-IsByte (a ∷ []) bytes h = subst (All IsByte) (some-inj h) tt
parse_bytes-IsByte (a ∷ b ∷ s) bytes h =
    cons_byte-IsByte (parse_byte a b) (parse_bytes s) bytes (parse_byte-IsByte a b)
      (parse_bytes-IsByte s) h

parsed-ok :
    (hex : String) (o : Option (List ℕ)) (bytes : List ℕ) → parsed hex o ≡ ok bytes → o ≡ some bytes
parsed-ok hex none bytes h = cc
parsed-ok hex (some b) bytes h = cc

pub hex_to_bytes-IsByte :
    (hex : String) (bytes : List ℕ) → hex_to_bytes hex ≡ ok bytes → All IsByte bytes
unfolding hex_to_bytes
hex_to_bytes-IsByte hex bytes h = parse_bytes-IsByte _ bytes (parsed-ok hex _ bytes h)
