-- ===== src/Erc7710/Words.antt =====
-- ABI words of src/erc7710/index.ts: a number as 32 bytes, the highest first, and back.
use agentworth.Prelude.{
  ℕ, zero, suc, ◌+◌, ◌-◌, ◌*◌, ◌/◌, ◌%◌, ◌≤◌, ◌<◌, ◌≡◌, refl, ap, ◌∙◌, List, [], ◌∷◌, ◌++◌, arith,
  ltb, ◌==◌, if◌then◌else◌, length, All, All-append, length-append, drop, drop_front, inl, inr,
  Bool-cases,
}
use agentworth.Erc7710.Hex.{Result, ok, throws, exceeds_word, IsByte}

-- The bytes of `v.toString(16)`, read in pairs of digits; none for 0. The fuel bounds their number.
unfoldable pub minimal_bytes : ℕ → ℕ → List ℕ
minimal_bytes zero v = []
minimal_bytes (suc fuel) v =
    let rest = minimal_bytes fuel (v / 256) in if v == 0 then [] else rest ++ (v % 256 ∷ [])

abbrev pub zeros : ℕ → List ℕ
zeros zero = []
zeros (suc n) = 0 ∷ zeros n

-- The end of `abiWord`: at most 32 bytes, padded on the left.
unfoldable pub pad_word : List ℕ → Result (List ℕ)
pad_word bytes =
    if ltb 32 (length bytes) then throws exceeds_word else ok (zeros (32 - length bytes) ++ bytes)

-- `abiWord` of a number: 33 bytes of fuel tell whether it has more than 32.
unfoldable pub abi_word : ℕ → Result (List ℕ)
abi_word v = pad_word (minimal_bytes 33 v)

-- `bytesToBigint`, from the value of the bytes before.
unfoldable pub read_bytes : ℕ → List ℕ → ℕ
read_bytes v [] = v
read_bytes v (b ∷ bytes) = read_bytes (v * 256 + b) bytes

unfoldable pub bytes_to_bigint : List ℕ → ℕ
bytes_to_bigint bytes = read_bytes 0 bytes

-- How many numbers n bytes can write.
abbrev pub capacity : ℕ → ℕ
capacity zero = 1
capacity (suc n) = 256 * capacity n

-- The bytes are n, and stand for the number.
pub record Writes (n v : ℕ) (bytes : List ℕ) : Type 0 where
  pub size : length bytes ≡ n
  pub each : All IsByte bytes
  pub value : bytes_to_bigint bytes ≡ v

read_bytes-append :
    (v : ℕ) (xs ys : List ℕ) → read_bytes v (xs ++ ys) ≡ read_bytes (read_bytes v xs) ys
unfolding read_bytes
read_bytes-append v [] ys = refl
read_bytes-append v (x ∷ xs) ys = read_bytes-append (v * 256 + x) xs ys

read_bytes-zeros : (n : ℕ) → read_bytes 0 (zeros n) ≡ 0
unfolding read_bytes
read_bytes-zeros zero = refl
read_bytes-zeros (suc n) = read_bytes-zeros n

read_bytes-minimal : (fuel v : ℕ) → v < capacity fuel → read_bytes 0 (minimal_bytes fuel v) ≡ v
unfolding minimal_bytes read_bytes
read_bytes-minimal zero v h = omega arith
read_bytes-minimal (suc fuel) v h = elim (Bool-cases (v == 0)) [
  | inl is_zero ↦ rw is_zero (ground arith)
  | inr other ↦ rw other (
      read_bytes-append 0 (minimal_bytes fuel (v / 256)) (v % 256 ∷ [])
      ∙ omega (arith, read_bytes-minimal fuel (v / 256) (omega (arith, h))))
]

length-minimal : (fuel k v : ℕ) → v < capacity k → length (minimal_bytes fuel v) ≤ k
unfolding minimal_bytes
length-minimal zero k v h = omega arith
length-minimal (suc fuel) zero v h = ground arith
length-minimal (suc fuel) (suc k) v h = elim (Bool-cases (v == 0)) [
  | inl is_zero ↦ rw is_zero (omega arith)
  | inr other ↦
      rw (other, length-append (minimal_bytes fuel (v / 256)) (v % 256 ∷ []))
        (omega (arith, length-minimal fuel k (v / 256) (omega (arith, h))))
]

minimal-IsByte : (fuel v : ℕ) → All IsByte (minimal_bytes fuel v)
unfolding minimal_bytes
minimal-IsByte zero v = tt
minimal-IsByte (suc fuel) v = elim (Bool-cases (v == 0)) [
  | inl is_zero ↦ rw is_zero tt
  | inr other ↦ rw other (
      All-append IsByte (minimal_bytes fuel (v / 256)) (v % 256 ∷ [])
        (minimal-IsByte fuel (v / 256)) (omega arith, tt))
]

length-zeros : (n : ℕ) → length (zeros n) ≡ n
length-zeros zero = refl
length-zeros (suc n) = omega (arith, length-zeros n)

pub zeros-IsByte : (n : ℕ) → All IsByte (zeros n)
zeros-IsByte zero = tt
zeros-IsByte (suc n) = (omega arith, zeros-IsByte n)

capacity-pos : (n : ℕ) → 0 < capacity n
capacity-pos zero = omega arith
capacity-pos (suc n) = omega (arith, capacity-pos n)

capacity_mono : (n k : ℕ) → n ≤ k → capacity n ≤ capacity k
capacity_mono zero k h = omega (arith, capacity-pos k)
capacity_mono (suc n) zero h = absurd (omega arith)
capacity_mono (suc n) (suc k) h = omega (arith, capacity_mono n k (omega arith))

-- A number that fits n bytes, padded to them.
abbrev pub padded : ℕ → ℕ → List ℕ
padded n v = zeros (n - length (minimal_bytes 33 v)) ++ minimal_bytes 33 v

pub padded-Writes : (n v : ℕ) → v < capacity n → n ≤ 32 → Writes n v (padded n v)
unfolding bytes_to_bigint
padded-Writes n v h le =
    let m = minimal_bytes 33 v in
    let short = length-minimal 33 n v h in
    let pad = zeros (n - length m) in
    record {
      size = length-append pad m ∙ rw (length-zeros (n - length m)) (omega (arith, short));
      each = All-append IsByte pad m (zeros-IsByte (n - length m)) (minimal-IsByte 33 v);
      value =
          read_bytes-append 0 pad m
          ∙ rw (read_bytes-zeros (n - length m))
              (read_bytes-minimal 33 v (omega (arith, h, capacity_mono n 33 (omega arith))));
    }

pub abi_word-padded : (v : ℕ) → v < capacity 32 → abi_word v ≡ ok (padded 32 v)
unfolding abi_word pad_word
abi_word-padded v h = ground (arith, length-minimal 33 32 v h)

pub pad_word-short :
    (bytes : List ℕ) → length bytes ≤ 32 → pad_word bytes ≡ ok (zeros (32 - length bytes) ++ bytes)
unfolding pad_word
pad_word-short bytes h = ground arith

zeros-add : (n m : ℕ) → zeros (n + m) ≡ zeros n ++ zeros m
zeros-add zero m = ap zeros (omega arith)
zeros-add (suc n) m =
    let e : suc n + m ≡ suc (n + m) = omega arith in
    ap zeros e ∙ ap (λ (s : List ℕ). 0 ∷ s) (zeros-add n m)

-- The low half of a word whose number fits it.
pub drop-padded : (v : ℕ) → v < capacity 16 → drop 16 (padded 32 v) ≡ padded 16 v
drop-padded v h =
    let m = minimal_bytes 33 v in
    let short = length-minimal 33 16 v h in
    let parts : padded 32 v ≡ zeros 16 ++ padded 16 v =
      (let e : 32 - length m ≡ 16 + (16 - length m) = omega (arith, short) in
        ap (λ n. zeros n ++ m) e)
      ∙ rw (zeros-add 16 (16 - length m)) refl in
    rw parts (drop_front 16 0 (zeros 16) (padded 16 v) refl)
