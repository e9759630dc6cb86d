-- ===== src/Templates/Scope.antt =====
-- What a grant from the presets of src/core/mandateTemplates.ts can be used for under src/core/gate.ts.
use agentworth.Prelude.{
  ℕ, ◌≤◌, ◌<◌, ◌≡◌, ◌≢◌, true, [], ◌∷◌, arith, In, inl, inr, subst, eq_iff, any, String, sym,
}
use agentworth.Types.{
  Mandate, PaymentIntent, RailKind, onchain, card, checkout, rail_eq, auto_execute, GateContext,
  payee_class, minor,
}
use agentworth.Gate.{evaluate_gate, covers, in_scope, is_live_mandate, amount_in}
use agentworth.Gate.Authority.{auto_execute-Authorized}
use agentworth.Templates.{
  MandateTemplate, groceries, subscriptions, transport, utilities, TemplateSpec, template_defaults,
  template_mandate,
}

covers-rail :
    (m : Mandate) (intent : PaymentIntent) (n : ℕ) (ctx : GateContext)
    → covers m intent n ctx.convert ≡ true
    → (any (rail_eq intent.rail) m.allowed_rails ≡ true) × (in_scope m.scope intent ≡ true)
unfolding covers
covers-rail m intent n ctx h = (ground arith, ground arith)

in_scope-class :
    (c : String) (intent : PaymentIntent)
    → in_scope (payee_class c) intent ≡ true
    → intent.payee_class ≡ c
unfolding in_scope
in_scope-class c intent h = sym ((eq_iff c intent.payee_class).0 h)

off_chain :
    (t : MandateTemplate) (r : RailKind)
    → any (rail_eq r) (template_defaults t).rails ≡ true
    → r ≢ onchain
off_chain groceries onchain h e = cc
off_chain subscriptions onchain h e = cc
off_chain transport onchain h e = cc
off_chain utilities onchain h e = cc
off_chain t card h e = cc
off_chain t checkout h e = cc

only : {A : Type 0} → {x y : A} → In x (y ∷ []) → x ≡ y
only (inl e) = e
only (inr e) = elim e [ ]

-- Under a grant from a preset alone, a payment that executes autonomously is for the preset's class of
-- payees, never on chain, before the grant expires, and a whole amount, which in the grant's currency
-- is at most the preset's cap of a single payment.
pub template_mandate-Authorized :
    (t : MandateTemplate) (spec : TemplateSpec) (intent : PaymentIntent) (ctx : GateContext)
    → ctx.mandates ≡ template_mandate t spec ∷ []
    → (evaluate_gate intent ctx).outcome ≡ auto_execute
    → (intent.payee_class ≡ (template_defaults t).scope_class)
      × (intent.rail ≢ onchain)
      × (ctx.now < spec.expires_at)
      × (n : ℕ) × (intent.amount ≡ minor n)
      × (amount_in (template_mandate t spec) intent n ctx.convert
          ≤ (template_defaults t).per_tx_cap)
unfolding template_mandate is_live_mandate
template_mandate-Authorized t spec intent ctx alone h =
    let (n, m, auth, _) = auto_execute-Authorized intent ctx h in
    let same = only (subst (In m) alone auth.granted) in
    let covering = subst (λ x. covers x intent n ctx.convert ≡ true) same auth.covering in
    let (on, scoped) = covers-rail (template_mandate t spec) intent n ctx covering in
    let live = subst (λ x. is_live_mandate x ctx.now ≡ true) same auth.live in
    (
      in_scope-class (template_defaults t).scope_class intent scoped,
      off_chain t intent.rail on,
      ground (arith, live),
      n,
      auth.whole,
      subst (λ x. amount_in x intent n ctx.convert ≤ x.per_tx_cap) same auth.under_tx_cap,
    )
