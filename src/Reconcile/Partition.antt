-- ===== src/Reconcile/Partition.antt =====
-- What src/finance/reconcile.ts pairs and what it leaves: nothing is lost or repeated.
use mathlib.Core.List.{Perm, perm_middle}
use mathlib.Core.List.Perm
use agentworth.Prelude.{
  ℕ, ◌+◌, ◌≤◌, ◌≡◌, sym, ap, ◌∙◌, subst, inl, inr, Bool, true, false, Option, none, some, List, [],
  ◌∷◌, ◌++◌, map, In, eq_iff, get_or, arith, Bool-cases, Option-cases,
}
use agentworth.Reconcile.{
  StatementLine, SettledPayment, ReconResult, default_window_ms, is_match, take_first, with_match,
  without_match, reconcile_all, reconcile,
}

-- A line of a statement that can be a payment's.
pub record Fits (window : ℕ) (p : SettledPayment) (l : StatementLine) : Type 0 where
  pub currency : l.currency ≡ p.currency
  pub amount : l.amount_minor ≡ p.amount_minor
  pub late : l.at ≤ p.at + window
  pub early : p.at ≤ l.at + window

is_match-Fits :
    (window : ℕ) (p : SettledPayment) (l : StatementLine)
    → is_match window p l ≡ true
    → Fits window p l
unfolding is_match
is_match-Fits window p l h = record {
  currency = ground (arith, h, eq_iff l.currency p.currency);
  amount = ground (arith, h);
  late = ground (arith, h);
  early = ground (arith, h);
}

Fits-is_match :
    (window : ℕ) (p : SettledPayment) (l : StatementLine)
    → Fits window p l
    → is_match window p l ≡ true
unfolding is_match
Fits-is_match window p l f =
    ground (arith, f.currency, f.amount, f.late, f.early, eq_iff l.currency p.currency)

-- What is taken from a list, and what that leaves.
Taken :
    (StatementLine → Bool)
    → List StatementLine
    → Option (StatementLine × List StatementLine)
    → Type 0
Taken p ls none = (l : StatementLine) → In l ls → p l ≡ false
Taken p ls (some (l, rest)) =
    (p l ≡ true) × Perm (l ∷ rest) ls × ((m : StatementLine) → In m rest → In m ls)

Taken-cons :
    (p : StatementLine → Bool) (l : StatementLine) (ls : List StatementLine)
    → p l ≡ false
    → (o : Option (StatementLine × List StatementLine)) → Taken p ls o
    → Taken p (l ∷ ls) (elim o [ none ↦ none | some (m, ms) ↦ some (m, l ∷ ms) ])
unfolding Taken
Taken-cons p l ls h none t = λ m i. elim i [ inl e ↦ ap p e ∙ h | inr j ↦ t m j ]
Taken-cons p l ls h (some (m, ms)) t = (
  t.0,
  Perm.trans (Perm.swap l m ms) (Perm.cons l t.1),
  λ k i. elim i [ inl e ↦ inl e | inr j ↦ inr (t.2 k j) ],
)

take_first-Taken :
    (p : StatementLine → Bool) (ls : List StatementLine) → Taken p ls (take_first p ls)
unfolding take_first Taken
take_first-Taken p [] = λ l i. absurd i
take_first-Taken p (l ∷ ls) = elim (Bool-cases (p l)) [
  | inl taken ↦ rw taken (taken, Perm.refl (l ∷ ls), λ m i. inr i)
  | inr left ↦ rw left (Taken-cons p l ls left (take_first p ls) (take_first-Taken p ls))
]

-- A matched payment and its line.
abbrev pub Pair : Type 0
Pair = SettledPayment × StatementLine

-- The payments and the lines, each in one part of the result.
pub record IsReconciled (window : ℕ) (payments : List SettledPayment) (lines : List StatementLine)
    (r : ReconResult) : Type 0 where
  pub payments_kept : Perm (map (λ m. m.0) r.matched ++ r.unmatched_payments) payments
  pub lines_kept : Perm (map (λ m. m.1) r.matched ++ r.unmatched_statement) lines
  pub matched_fit : (m : Pair) → In m r.matched → Fits window m.0 m.1
  pub left_apart :
      (p : SettledPayment) (l : StatementLine)
      → In p r.unmatched_payments
      → In l r.unmatched_statement
      → ¬ Fits window p l

Left : List StatementLine → ReconResult → Type 0
Left lines r = (l : StatementLine) → In l r.unmatched_statement → In l lines

module _ (window : ℕ) (p : SettledPayment) (ps : List SettledPayment)
    (lines : List StatementLine) where
  IsReconciled-with_match :
      (l : StatementLine) (rest : List StatementLine) (r : ReconResult)
      → Taken (is_match window p) lines (some (l, rest))
      → IsReconciled window ps rest r
      → IsReconciled window (p ∷ ps) lines (with_match p l r)
  unfolding Taken
  IsReconciled-with_match l rest r t h = record {
    payments_kept = Perm.cons p h.payments_kept;
    lines_kept = Perm.trans (Perm.cons l h.lines_kept) t.1;
    matched_fit = λ m i. elim i [
      | inl e ↦ subst (λ x. Fits window x.0 x.1) (sym e) (is_match-Fits window p l t.0)
      | inr j ↦ h.matched_fit m j
    ];
    left_apart = h.left_apart;
  }

  IsReconciled-without_match :
      (r : ReconResult)
      → Taken (is_match window p) lines none
      → Left lines r
      → IsReconciled window ps lines r
      → IsReconciled window (p ∷ ps) lines (without_match p r)
  unfolding Taken Left
  IsReconciled-without_match r t within h = record {
    payments_kept =
        Perm.trans (perm_middle (map (λ m. m.0) r.matched) r.unmatched_payments)
          (Perm.cons p h.payments_kept);
    lines_kept = h.lines_kept;
    matched_fit = h.matched_fit;
    left_apart = λ q l i j f. elim i [
      | inl e ↦ cc (Fits-is_match window p l (subst (λ x. Fits window x l) e f), t l (within l j))
      | inr k ↦ h.left_apart q l k j f
    ];
  }

reconcile_all-Left :
    (window : ℕ) (ps : List SettledPayment) (lines : List StatementLine)
    → Left lines (reconcile_all window ps lines)
unfolding reconcile_all Left Taken
reconcile_all-Left window [] lines = λ l i. i
reconcile_all-Left window (p ∷ ps) lines =
    elim (Option-cases (take_first (is_match window p) lines)) [
      | inl e ↦ rw (e, reconcile_all) (reconcile_all-Left window ps lines)
      | inr ((l, rest), e) ↦
          let t =
            subst (Taken (is_match window p) lines) e
              (take_first-Taken (is_match window p) lines) in
          rw (e, reconcile_all) (λ m i. t.2 m (reconcile_all-Left window ps rest m i))
    ]

reconcile_all-IsReconciled :
    (window : ℕ) (ps : List SettledPayment) (lines : List StatementLine)
    → IsReconciled window ps lines (reconcile_all window ps lines)
unfolding reconcile_all
reconcile_all-IsReconciled window [] lines = record {
  payments_kept = Perm.refl [];
  lines_kept = Perm.refl lines;
  matched_fit = λ m i. absurd i;
  left_apart = λ p l i j f. absurd i;
}
reconcile_all-IsReconciled window (p ∷ ps) lines =
    let taken = take_first-Taken (is_match window p) lines in
    elim (Option-cases (take_first (is_match window p) lines)) [
      | inl e ↦
          rw (e, reconcile_all)
            (IsReconciled-without_match window p ps lines (reconcile_all window ps lines)
              (subst (Taken (is_match window p) lines) e taken) (reconcile_all-Left window ps lines)
              (reconcile_all-IsReconciled window ps lines))
      | inr ((l, rest), e) ↦
          rw (e, reconcile_all)
            (IsReconciled-with_match window p ps lines l rest (reconcile_all window ps rest)
              (subst (Taken (is_match window p) lines) e taken)
              (reconcile_all-IsReconciled window ps rest))
    ]

-- A reconciliation loses and repeats nothing: the payments are those that are matched and those
-- that are not, as often as they were, and so are the lines of the statement; a matched line has
-- the currency and the amount of its payment and is at most the window away from it; and no
-- payment that is left matches a line that is left.
pub reconcile-IsReconciled :
    (payments : List SettledPayment) (lines : List StatementLine) (window : Option ℕ)
    → IsReconciled
        (get_or window default_window_ms)
        payments
        lines
        (reconcile payments lines window)
unfolding reconcile
reconcile-IsReconciled payments lines window =
    reconcile_all-IsReconciled (get_or window default_window_ms) payments lines
