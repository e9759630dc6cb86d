-- ===== src/Prelude/Lists.antt =====
-- List operations with Boolean tests, as the source's array methods, and a predicate by recursion.
use Prim.Native.Nat.{ℕ, zero, suc, ◌+◌, ◌≤◌}
use mathlib.Core.Path.{◌≡◌, refl, sym, ap, ◌∙◌, subst}
use mathlib.Core.Logic.{◌⊎◌, inl, inr}
use mathlib.Core.Bool.{Bool, true, false, ◌&&◌, ◌||◌}
use mathlib.Core.List.{List, [], ◌∷◌, ◌++◌}
use mathlib.Core.Option.{Option, none, some}
use native.Mathlib.Omega.{arith}
use agentworth.Prelude.Tests.{if◌then◌else◌, is_some, Bool-cases}

module _ {ℓ} {A : Type ℓ} where
  abbrev pub length : List A → ℕ
  length [] = 0
  length (x ∷ xs) = suc (length xs)

  -- `xs.filter(p)`
  abbrev pub filter : (A → Bool) → List A → List A
  filter p [] = []
  filter p (x ∷ xs) = let rest = filter p xs in if p x then x ∷ rest else rest

  -- `xs.find(p)`
  abbrev pub find : (A → Bool) → List A → Option A
  find p [] = none
  find p (x ∷ xs) = let rest = find p xs in if p x then some x else rest

  -- `xs.some(p)` and `xs.every(p)`
  abbrev pub any : (A → Bool) → List A → Bool
  any p [] = false
  any p (x ∷ xs) = p x || any p xs

  abbrev pub all : (A → Bool) → List A → Bool
  all p [] = true
  all p (x ∷ xs) = p x && all p xs

  -- `new Set(xs)` as far as `eq` tells its elements apart.
  unfoldable pub distinct : (A → A → Bool) → List A → List A
  distinct eq [] = []
  distinct eq (x ∷ xs) = let rest = distinct eq xs in if any (eq x) rest then rest else x ∷ rest

  abbrev pub take : ℕ → List A → List A
  take zero xs = []
  take (suc n) [] = []
  take (suc n) (x ∷ xs) = x ∷ take n xs

  abbrev pub drop : ℕ → List A → List A
  drop zero xs = xs
  drop (suc n) [] = []
  drop (suc n) (x ∷ xs) = drop n xs

  abbrev pub All {κ} : (A → Type κ) → List A → Type κ
  All P [] = Unit
  All P (x ∷ xs) = P x × All P xs

-- Where an element stands in a list; a witness, not a proposition.
abbrev pub In : {A : Type 0} → A → List A → Type 0
In a [] = ⊥
In a (x ∷ xs) = (a ≡ x) ⊎ In a xs

module _ {A : Type 0} where
  pub length-append : (xs ys : List A) → length (xs ++ ys) ≡ length xs + length ys
  length-append [] ys = omega arith
  length-append (x ∷ xs) ys = omega (arith, length-append xs ys)

  pub take_front : (n : ℕ) (xs ys : List A) → length xs ≡ n → take n (xs ++ ys) ≡ xs
  take_front zero [] ys e = refl
  take_front zero (x ∷ xs) ys e = absurd (omega (arith, e))
  take_front (suc n) [] ys e = absurd (omega (arith, e))
  take_front (suc n) (x ∷ xs) ys e =
      ap (λ (zs : List A). x ∷ zs) (take_front n xs ys (omega (arith, e)))

  pub drop_front : (k m : ℕ) (xs ys : List A) → k ≡ length xs + m → drop k (xs ++ ys) ≡ drop m ys
  drop_front k m [] ys e = ap (λ n. drop n ys) (omega (arith, e))
  drop_front zero m (x ∷ xs) ys e = absurd (omega (arith, e))
  drop_front (suc k) m (x ∷ xs) ys e = drop_front k m xs ys (omega (arith, e))

  pub find_sound :
      (p : A → Bool) (xs : List A) (a : A) → find p xs ≡ some a → In a xs × (p a ≡ true)
  find_sound p [] a h = cc
  find_sound p (x ∷ xs) a h = ground (arith, find_sound p xs a)

  pub find-none : (p : A → Bool) (xs : List A) (a : A) → find p xs ≡ none → In a xs → p a ≡ false
  find-none p [] a h i = absurd i
  find-none p (x ∷ xs) a h i = ground (arith, find-none p xs a)

  pub find-eq-none :
      (p : A → Bool) (xs : List A) → ((a : A) → In a xs → p a ≡ false) → find p xs ≡ none
  find-eq-none p [] h = refl
  find-eq-none p (x ∷ xs) h = rw (h x (inl refl)) (find-eq-none p xs (λ a i. h a (inr i)))

  pub find-In :
      (p : A → Bool) (xs : List A) (a : A) → In a xs → p a ≡ true → is_some (find p xs) ≡ true
  find-In p [] a i h = absurd i
  find-In p (x ∷ xs) a i h = ground (arith, find-In p xs a)

  pub any-In : (p : A → Bool) (xs : List A) (a : A) → In a xs → p a ≡ true → any p xs ≡ true
  any-In p [] a i h = absurd i
  any-In p (x ∷ xs) a i h = ground (arith, any-In p xs a)

  pub any-find : (p : A → Bool) (xs : List A) → any p xs ≡ true → (z : A) × In z xs × (p z ≡ true)
  any-find p [] h = cc
  any-find p (x ∷ xs) h = elim (Bool-cases (p x)) [
    | inl holds ↦ (x, inl refl, holds)
    | inr fails ↦ let (z, i, e) = any-find p xs (ground arith) in (z, inr i, e)
  ]

  pub any-false : (p : A → Bool) (xs : List A) (a : A) → any p xs ≡ false → In a xs → p a ≡ false
  any-false p [] a h i = absurd i
  any-false p (x ∷ xs) a h i = ground (arith, any-false p xs a)

  In-distinct :
      (eq : A → A → Bool)
      → ((a b : A) → eq a b ≡ true → a ≡ b)
      → (xs : List A) (y : A) → In y xs
      → In y (distinct eq xs)
  unfolding distinct
  In-distinct eq sound [] y i = absurd i
  In-distinct eq sound (x ∷ xs) y (inl e) = elim (Bool-cases (any (eq x) (distinct eq xs))) [
    | inl held ↦
        let (z, j, same) = any-find (eq x) (distinct eq xs) held in
        rw held (subst (λ a. In a (distinct eq xs)) (sym (e ∙ sound x z same)) j)
    | inr fresh ↦ rw fresh (inl e)
  ]
  In-distinct eq sound (x ∷ xs) y (inr i) = elim (Bool-cases (any (eq x) (distinct eq xs))) [
    | inl held ↦ rw held (In-distinct eq sound xs y i)
    | inr fresh ↦ rw fresh (inr (In-distinct eq sound xs y i))
  ]

  In-none : (xs : List A) (y : A) → length xs ≤ 0 → In y xs → ⊥
  In-none [] y h i = i
  In-none (x ∷ xs) y h i = absurd (omega arith)

  In-sole : (xs : List A) (y z : A) → length xs ≤ 1 → In y xs → In z xs → y ≡ z
  In-sole [] y z h i j = absurd i
  In-sole (x ∷ []) y z h (inl e) (inl f) = cc
  In-sole (x ∷ []) y z h (inl e) (inr j) = absurd j
  In-sole (x ∷ []) y z h (inr i) j = absurd i
  In-sole (x ∷ w ∷ xs) y z h i j = absurd (omega arith)

  -- A list with at most one distinct element has none but its first.
  pub distinct-sole :
      (eq : A → A → Bool)
      → ((a b : A) → eq a b ≡ true → a ≡ b)
      → (x : A) (xs : List A) (y : A) → length (distinct eq (x ∷ xs)) ≤ 1
      → In y xs
      → y ≡ x
  unfolding distinct
  distinct-sole eq sound x xs y h i = elim (Bool-cases (any (eq x) (distinct eq xs))) [
    | inl held ↦
        let (z, j, same) = any-find (eq x) (distinct eq xs) held in
        In-sole (distinct eq xs) y z (rw held at h) (In-distinct eq sound xs y i) j
        ∙ sym (sound x z same)
    | inr fresh ↦
        absurd (
          In-none (distinct eq xs) y (omega (arith, (rw fresh at h))) (In-distinct eq sound xs y i))
  ]

  pub All-In {κ} : (P : A → Type κ) (xs : List A) (a : A) → All P xs → In a xs → P a
  All-In P [] a h i = absurd i
  All-In P (x ∷ xs) a h (inl e) = rw e h.0
  All-In P (x ∷ xs) a h (inr i) = All-In P xs a h.1 i

  pub All-append {κ} : (P : A → Type κ) (xs ys : List A) → All P xs → All P ys → All P (xs ++ ys)
  All-append P [] ys hx hy = hy
  All-append P (x ∷ xs) ys hx hy = (hx.0, All-append P xs ys hx.1 hy)

-- `xs.reduce((sum, x) => sum + x, 0)`
abbrev pub sum : List ℕ → ℕ
sum [] = 0
sum (x ∷ xs) = x + sum xs

pub sum-append : (xs ys : List ℕ) → sum (xs ++ ys) ≡ sum xs + sum ys
sum-append [] ys = omega arith
sum-append (x ∷ xs) ys = omega (arith, sum-append xs ys)
