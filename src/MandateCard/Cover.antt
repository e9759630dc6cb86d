-- ===== src/MandateCard/Cover.antt =====
-- What src/core/mandateCard.ts says when it compares a card with the mandates in force.
use agentworth.Prelude.{
  ◌≤◌, ◌≡◌, refl, sym, ◌∙◌, ◌↔◌, true, List, [], ◌∷◌, In, inl, inr, any, all, any-In, any-find,
  any-false, arith, le→leb, eq_iff, Bool-cases, subst,
}
use agentworth.Types.{Mandate, MandateStatus, active, Period, RailKind, rail_eq}
use agentworth.Gate.{is_active}
use agentworth.MandateCard.{
  SpendCardRequiredMandate, SpendMandateCard, scope_class, period_eq, is_nil, satisfies, missing_of,
  compare_spend_card,
}

-- A mandate in force that has all that a card requires.
pub record Covers (req : SpendCardRequiredMandate) (m : Mandate) : Type 0 where
  pub live : m.status ≡ active
  pub class : scope_class m.scope "" ≡ req.payee_class
  pub currency : m.currency ≡ req.currency
  pub tx_cap : req.suggested_per_tx_cap ≤ m.per_tx_cap
  pub period_cap : req.suggested_per_period_cap ≤ m.per_period_cap
  pub period : m.period ≡ req.period
  pub rails : (r : RailKind) → In r req.rails → In r m.allowed_rails

-- One of the mandates has it.
abbrev pub Covered : List Mandate → SpendCardRequiredMandate → Type 0
Covered mandates req = (m : Mandate) × In m mandates × Covers req m

period_eq_iff : (p q : Period) → (period_eq p q ≡ true) ↔ (p ≡ q)
period_eq_iff p q = (λ h. ground (arith, h), λ h. ground (arith, h))

rail_eq_iff : (r q : RailKind) → (rail_eq r q ≡ true) ↔ (r ≡ q)
rail_eq_iff r q = (λ h. ground (arith, h), λ h. ground (arith, h))

is_active_iff : (s : MandateStatus) → (is_active s ≡ true) ↔ (s ≡ active)
is_active_iff s = (λ h. ground (arith, h), λ h. ground (arith, h))

all-In :
    (rails more : List RailKind)
    → ((r : RailKind) → In r more → In r rails)
    → all (λ r. any (rail_eq r) rails) more ≡ true
all-In rails [] h = refl
all-In rails (r ∷ more) h =
    rw (any-In (rail_eq r) rails r (h r (inl refl)) ((rail_eq_iff r r).1 refl))
      (all-In rails more (λ q i. h q (inr i)))

In-all :
    (rails more : List RailKind)
    → all (λ r. any (rail_eq r) rails) more ≡ true
    → (r : RailKind) → In r more
    → In r rails
In-all rails [] h r i = absurd i
In-all rails (q ∷ more) h r (inl e) =
    let (z, j, same) = any-find (rail_eq q) rails (ground (arith, h)) in
    subst (λ x. In x rails) (sym (e ∙ (rail_eq_iff q z).0 same)) j
In-all rails (q ∷ more) h r (inr i) = In-all rails more (ground (arith, h)) r i

satisfies-Covers :
    (req : SpendCardRequiredMandate) (m : Mandate) → satisfies req m ≡ true → Covers req m
unfolding satisfies
satisfies-Covers req m h = record {
  live = (is_active_iff m.status).0 (ground (arith, h));
  class = (eq_iff (scope_class m.scope "") req.payee_class).0 (ground (arith, h));
  currency = (eq_iff m.currency req.currency).0 (ground (arith, h));
  tx_cap = ground (arith, h);
  period_cap = ground (arith, h);
  period = (period_eq_iff m.period req.period).0 (ground (arith, h));
  rails = In-all m.allowed_rails req.rails (ground (arith, h));
}

Covers-satisfies :
    (req : SpendCardRequiredMandate) (m : Mandate) → Covers req m → satisfies req m ≡ true
unfolding satisfies
Covers-satisfies req m c =
    rw
      (
        (is_active_iff m.status).1 c.live,
        (eq_iff (scope_class m.scope "") req.payee_class).1 c.class,
        (eq_iff m.currency req.currency).1 c.currency,
        le→leb _ _ c.tx_cap,
        le→leb _ _ c.period_cap,
        (period_eq_iff m.period req.period).1 c.period,
        all-In m.allowed_rails req.rails c.rails,
      )
      refl

nil_iff : (xs : List SpendCardRequiredMandate) → (is_nil xs ≡ true) ↔ (xs ≡ [])
nil_iff [] = (λ h. refl, λ h. refl)
nil_iff (x ∷ xs) = (λ h. cc, λ h. cc)

-- What is missing is what is required and not covered.
missing_of-In :
    (mandates : List Mandate) (reqs : List SpendCardRequiredMandate)
    (req : SpendCardRequiredMandate)
    → In req (missing_of mandates reqs)
    → In req reqs × ¬ Covered mandates req
unfolding missing_of
missing_of-In mandates [] req i = absurd i
missing_of-In mandates (q ∷ reqs) req i = elim (Bool-cases (any (satisfies q) mandates)) [
  | inl held ↦
      let (j, apart) = missing_of-In mandates reqs req (rw (held, missing_of) at i) in
      (inr j, apart)
  | inr other ↦ elim (rw (other, missing_of) at i) [
    | inl e ↦ (
      inl e,
      λ c. cc (
        any-false (satisfies q) mandates c.0 other c.1,
        Covers-satisfies q c.0 (subst (λ x. Covers x c.0) e c.2),
      ),
    )
    | inr j ↦ let (k, apart) = missing_of-In mandates reqs req j in (inr k, apart)
  ]
]

In-missing_of :
    (mandates : List Mandate) (reqs : List SpendCardRequiredMandate)
    (req : SpendCardRequiredMandate)
    → In req reqs
    → ¬ Covered mandates req
    → In req (missing_of mandates reqs)
unfolding missing_of
In-missing_of mandates [] req i apart = absurd i
In-missing_of mandates (q ∷ reqs) req i apart = elim (Bool-cases (any (satisfies q) mandates)) [
  | inl held ↦
      rw (held, missing_of)
        (elim i [
          | inl e ↦
              let (m, j, same) = any-find (satisfies q) mandates held in
              absurd (apart (m, j, subst (λ x. Covers x m) (sym e) (satisfies-Covers q m same)))
          | inr k ↦ In-missing_of mandates reqs req k apart
        ])
  | inr other ↦
      rw (other, missing_of)
        (elim i [ inl e ↦ inl e | inr k ↦ inr (In-missing_of mandates reqs req k apart) ])
]

-- A comparison of a card with mandates says that they cover it exactly when nothing is missing, and
-- what is missing is what the card requires and no mandate has: one that is active, for the class and
-- in the currency, over the period, with caps that are not smaller, and for all of the rails.
pub compare_spend_card-IsExact :
    (c : SpendMandateCard) (mandates : List Mandate)
    → (((compare_spend_card c mandates).covers ≡ true)
        ↔ ((compare_spend_card c mandates).missing ≡ []))
      × ((req : SpendCardRequiredMandate)
          → In req (compare_spend_card c mandates).missing
            ↔ (In req c.required_mandates × ¬ Covered mandates req))
unfolding compare_spend_card
compare_spend_card-IsExact c mandates = (
  nil_iff (missing_of mandates c.required_mandates),
  λ req. (
    missing_of-In mandates c.required_mandates req,
    λ h. In-missing_of mandates c.required_mandates req h.0 h.1,
  ),
)
