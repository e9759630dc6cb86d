-- ===== src/MandateCard/Window.antt =====
-- The caps that `deriveSpendCard` of src/core/mandateCard.ts infers from a group of payments.
use agentworth.Prelude.{
  ℕ, ◌+◌, ◌≤◌, ◌<◌, ◌≡◌, refl, ◌&&◌, List, [], ◌∷◌, arith, ltb, leb, if◌then◌else◌, In, ◌⊎◌, inl,
  inr, Bool-cases, ltb→lt, ◌∙◌, ap,
}
use agentworth.Types.{Period, day, week, month}
use agentworth.MandateCard.{
  Spend, sum_until, larger, max_rolling_period_sum, insert_spend, sort_spends, max_amount, Group,
  period_ms, required_for,
}

larger-left : (a b : ℕ) → a ≤ larger a b
larger-left a b = ground arith

larger-right : (a b : ℕ) → b ≤ larger a b
larger-right a b = ground arith

larger_mono : (a b : ℕ) → a ≤ b → larger 1 a ≤ larger 1 b
larger_mono a b h = ground arith

-- What was spent in a window that begins at an instant.
unfoldable pub spent_in : ℕ → ℕ → List Spend → ℕ
spent_in from period [] = 0
spent_in from period (s ∷ rest) =
    let more = spent_in from period rest in
    if leb from s.t && ltb s.t (from + period) then s.amount + more else more

-- No payment of the list is before an instant.
abbrev Since : ℕ → List Spend → Type 0
Since t [] = Unit
Since t (s ∷ rest) = (t ≤ s.t) × Since t rest

abbrev Sorted : List Spend → Type 0
Sorted [] = Unit
Sorted (s ∷ rest) = Since s.t rest × Sorted rest

Since-insert_spend :
    (t : ℕ) (s : Spend) (xs : List Spend) → t ≤ s.t → Since t xs → Since t (insert_spend s xs)
unfolding insert_spend
Since-insert_spend t s [] le h = (le, tt)
Since-insert_spend t s (x ∷ xs) le (hx, h) = ground (arith, Since-insert_spend t s xs le h)

Since-weaken : (t u : ℕ) (xs : List Spend) → t ≤ u → Since u xs → Since t xs
Since-weaken t u [] le h = tt
Since-weaken t u (x ∷ xs) le (hx, h) = (omega arith, Since-weaken t u xs le h)

Sorted-insert_spend : (s : Spend) (xs : List Spend) → Sorted xs → Sorted (insert_spend s xs)
unfolding insert_spend
Sorted-insert_spend s [] h = (tt, tt)
Sorted-insert_spend s (x ∷ xs) (hx, h) = elim (Bool-cases (ltb x.t s.t)) [
  | inl before ↦ rw before (
    Since-insert_spend x.t s xs (omega (arith, ltb→lt x.t s.t before)) hx,
    Sorted-insert_spend s xs h,
  )
  | inr not_before ↦
      let le : s.t ≤ x.t = ground arith in
      rw not_before ((le, Since-weaken s.t x.t xs le hx), (hx, h))
]

Sorted-sort_spends : (xs : List Spend) → Sorted (sort_spends xs)
unfolding sort_spends
Sorted-sort_spends [] = tt
Sorted-sort_spends (x ∷ xs) = Sorted-insert_spend x (sort_spends xs) (Sorted-sort_spends xs)

spent_in-insert_spend :
    (from period : ℕ) (s : Spend) (xs : List Spend)
    → spent_in from period (insert_spend s xs) ≡ spent_in from period (s ∷ xs)
unfolding spent_in insert_spend
spent_in-insert_spend from period s [] = refl
spent_in-insert_spend from period s (x ∷ xs) =
    ground (arith, spent_in-insert_spend from period s xs)

spent_in-sort_spends :
    (from period : ℕ) (xs : List Spend)
    → spent_in from period (sort_spends xs) ≡ spent_in from period xs
unfolding spent_in sort_spends
spent_in-sort_spends from period [] = refl
spent_in-sort_spends from period (x ∷ xs) =
    spent_in-insert_spend from period x (sort_spends xs)
    ∙ rw (spent_in-sort_spends from period xs) refl

-- A window that is over before the payments has none of them.
spent_in-late :
    (from period t : ℕ) (xs : List Spend)
    → from + period ≤ t
    → Since t xs
    → spent_in from period xs ≡ 0
unfolding spent_in
spent_in-late from period t [] le h = refl
spent_in-late from period t (x ∷ xs) le (hx, h) =
    ground (arith, spent_in-late from period t xs le h)

-- A window holds at most what is spent before an instant after it.
spent_in-sum_until :
    (from period end : ℕ) (xs : List Spend)
    → from + period ≤ end
    → Sorted xs
    → spent_in from period xs ≤ sum_until end xs
unfolding spent_in sum_until
spent_in-sum_until from period end [] le h = omega arith
spent_in-sum_until from period end (x ∷ xs) le (hx, h) =
    let rest = spent_in-sum_until from period end xs le h in
    elim (Bool-cases (ltb x.t end)) [
      | inl before ↦ ground (arith, rest)
      | inr not_before ↦
          let late : from + period ≤ x.t = ground arith in
          ground (arith, spent_in-late from period x.t xs late hx)
    ]

spent_in-max_rolling :
    (from period : ℕ) (xs : List Spend)
    → Sorted xs
    → spent_in from period xs ≤ max_rolling_period_sum period xs
unfolding spent_in max_rolling_period_sum
spent_in-max_rolling from period [] h = omega arith
spent_in-max_rolling from period (x ∷ xs) (hx, h) =
    let rest = spent_in-max_rolling from period xs h in
    elim (Bool-cases (leb from x.t)) [
      | inl begins ↦
          let from_here =
            spent_in-sum_until from period (x.t + period) (x ∷ xs) (ground arith) (hx, h) in
          omega (
            arith,
            from_here,
            larger-left (sum_until (x.t + period) (x ∷ xs)) (max_rolling_period_sum period xs),
          )
      | inr later ↦ rw later (
          omega (
            arith,
            rest,
            larger-right (sum_until (x.t + period) (x ∷ xs)) (max_rolling_period_sum period xs),
          ))
    ]

In-insert_spend : (x s : Spend) (xs : List Spend) → (x ≡ s) ⊎ In x xs → In x (insert_spend s xs)
unfolding insert_spend
In-insert_spend x s [] (inl e) = inl e
In-insert_spend x s [] (inr i) = absurd i
In-insert_spend x s (y ∷ ys) i = elim (Bool-cases (ltb y.t s.t)) [
  | inr other ↦ rw other i
  | inl before ↦ rw before (elim i [
    | inl e ↦ inr (In-insert_spend x s ys (inl e))
    | inr (inl e) ↦ inl e
    | inr (inr j) ↦ inr (In-insert_spend x s ys (inr j))
  ])
]

In-sort_spends : (x : Spend) (xs : List Spend) → In x xs → In x (sort_spends xs)
unfolding sort_spends
In-sort_spends x [] i = i
In-sort_spends x (y ∷ ys) (inl e) = In-insert_spend x y (sort_spends ys) (inl e)
In-sort_spends x (y ∷ ys) (inr i) =
    In-insert_spend x y (sort_spends ys) (inr (In-sort_spends x ys i))

In-max_amount : (x : Spend) (xs : List Spend) → In x xs → x.amount ≤ max_amount xs
unfolding max_amount
In-max_amount x [] i = absurd i
In-max_amount x (y ∷ ys) (inl e) =
    omega (arith, ap (λ (s : Spend). s.amount) e, larger-left y.amount (max_amount ys))
In-max_amount x (y ∷ ys) (inr i) =
    omega (arith, In-max_amount x ys i, larger-right y.amount (max_amount ys))

max_amount-max_rolling :
    (period : ℕ) (xs : List Spend) → 0 < period → max_amount xs ≤ max_rolling_period_sum period xs
unfolding max_amount max_rolling_period_sum sum_until
max_amount-max_rolling period [] pos = omega arith
max_amount-max_rolling period (x ∷ xs) pos = ground (arith, max_amount-max_rolling period xs pos)

period_ms-pos : (p : Period) → 0 < period_ms p
period_ms-pos day = omega arith
period_ms-pos week = omega arith
period_ms-pos month = omega arith

-- The caps inferred from a group cover it: no payment of the group exceeds the cap of a single payment,
-- no window of the length of the period, wherever it begins, holds more than the cap of the period,
-- and the cap of a single payment is at most that of the period; padding makes no cap smaller and
-- keeps their order.
pub required_for-covers :
    (padded : ℕ → ℕ) (period : Period) (g : Group)
    → ((n : ℕ) → n ≤ padded n)
    → ((m n : ℕ) → m ≤ n → padded m ≤ padded n)
    → let req = required_for padded period g in
      ((x : Spend) → In x g.spends → x.amount ≤ req.suggested_per_tx_cap)
      × ((from : ℕ) → spent_in from (period_ms period) g.spends ≤ req.suggested_per_period_cap)
      × (req.suggested_per_tx_cap ≤ req.suggested_per_period_cap)
unfolding required_for
required_for-covers padded period g grows monotone =
    let sorted = sort_spends g.spends in
    let top = max_amount sorted in
    let most = max_rolling_period_sum (period_ms period) sorted in
    let order : top ≤ most =
      max_amount-max_rolling (period_ms period) sorted (period_ms-pos period) in
    (
      λ x i. omega (
        arith,
        In-max_amount x sorted (In-sort_spends x g.spends i),
        grows top,
        larger-right 1 (padded top),
      ),
      λ from. omega (
        arith,
        spent_in-max_rolling from (period_ms period) sorted (Sorted-sort_spends g.spends),
        spent_in-sort_spends from (period_ms period) g.spends,
        grows most,
        larger-right 1 (padded most),
      ),
      larger_mono (padded top) (padded most) (monotone top most order),
    )
