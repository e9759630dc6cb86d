-- ===== src/X402Proxy/Cheapest.antt =====
-- The requirement that src/proxy/x402Proxy.ts selects is one that can be paid, and none is cheaper.
use agentworth.Prelude.{
  ◌≡◌, refl, ap, ◌∙◌, subst, true, false, Option, some, List, [], ◌∷◌, In, inl, inr, Bool-cases,
  String,
}
use agentworth.X402Proxy.{
  Numbers, X402Requirement, Priced, eligible, cheapest, reduce, select_requirement,
}

-- `<` on finite numbers is a total order.
pub record Ordered (n : Numbers) : Type 0 where
  pub asym : (a b : n.Number) → n.less a b ≡ true → n.less b a ≡ false
  pub irrefl : (a : n.Number) → n.less a a ≡ false
  pub none_less : (a b c : n.Number) → n.less a b ≡ false → n.less b c ≡ false → n.less a c ≡ false

module _ (n : Numbers) (order : Ordered n) where
  -- One of them, and none is cheaper.
  pub record Cheapest (rs : List (Priced n)) (r : Priced n) : Type 0 where
    pub listed : In r rs
    pub least : (q : Priced n) → In q rs → n.less q.1 r.1 ≡ false

  -- The cheapest of the rest, when the second is cheaper than the first, and when it is not.
  swapped :
      (best r : Priced n) (rs : List (Priced n)) (c : Priced n)
      → n.less best.1 r.1 ≡ false
      → Cheapest (r ∷ rs) c
      → Cheapest (best ∷ r ∷ rs) c
  swapped best r rs c h k = record {
    listed = inr k.listed;
    least = λ q i. elim i [
      | inl e ↦ ap (λ x. n.less x.1 c.1) e ∙ order.none_less best.1 r.1 c.1 h (k.least r (inl refl))
      | inr j ↦ k.least q j
    ];
  }

  kept :
      (best r : Priced n) (rs : List (Priced n)) (c : Priced n)
      → n.less r.1 best.1 ≡ false
      → Cheapest (best ∷ rs) c
      → Cheapest (best ∷ r ∷ rs) c
  kept best r rs c h k = record {
    listed = elim k.listed [ inl e ↦ inl e | inr j ↦ inr (inr j) ];
    least = λ q i. elim i [
      | inl e ↦ k.least q (inl e)
      | inr j ↦ elim j [
        | inl e ↦
            ap (λ x. n.less x.1 c.1) e ∙ order.none_less r.1 best.1 c.1 h (k.least best (inl refl))
        | inr l ↦ k.least q (inr l)
      ]
    ];
  }

  cheapest-Cheapest :
      (best : Priced n) (rs : List (Priced n)) → Cheapest (best ∷ rs) (cheapest n best rs)
  unfolding cheapest
  cheapest-Cheapest best [] = record {
    listed = inl refl;
    least = λ q i. elim i [
      | inl e ↦ ap (λ x. n.less x.1 best.1) e ∙ order.irrefl best.1
      | inr j ↦ elim j [ ]
    ];
  }
  cheapest-Cheapest best (r ∷ rs) = elim (Bool-cases (n.less r.1 best.1)) [
    | inl cheaper ↦
        rw cheaper (swapped best r rs _ (order.asym r.1 best.1 cheaper) (cheapest-Cheapest r rs))
    | inr dearer ↦ rw dearer (kept best r rs _ dearer (cheapest-Cheapest best rs))
  ]

  reduce-Cheapest : (rs : List (Priced n)) (r : Priced n) → reduce n rs ≡ some r → Cheapest rs r
  reduce-Cheapest [] r h = cc
  reduce-Cheapest (q ∷ rs) r h =
      let e : cheapest n q rs ≡ r = cc in subst (Cheapest (q ∷ rs)) e (cheapest-Cheapest q rs)

  pub select_requirement-Cheapest :
      (accepts : List X402Requirement) (networks : Option (List String)) (r : Priced n)
      → select_requirement n accepts networks ≡ some r
      → Cheapest (eligible n networks accepts) r
  unfolding select_requirement
  select_requirement-Cheapest accepts networks r h =
      reduce-Cheapest (eligible n networks accepts) r h
