-- ===== src/Erc7710/Bounded.antt =====
-- What an autonomous redemption rests on, of `gateDelegationRedemption` in src/erc7710/index.ts.
use agentworth.Prelude.{ℕ, ◌+◌, ◌*◌, ◌≤◌, ◌<◌, ◌≡◌, String, some, List, get_or, In}
use agentworth.Types.{Mandate, minor, PaymentIntent, GateContext}
use agentworth.Gate.{spent_of}
use agentworth.Erc7710.Hex.{ok}
use agentworth.Erc7710.Terms.{normalize_address}
use agentworth.Erc7710.Delegation.{Delegation}
use agentworth.Erc7710.Redemption.{
  Authority, decode_authority, DelegationRedemptionOpts, cap_of, period_cap_of, mandate_id_of,
  decoded_mandate, redemption_intent,
}

-- The bounds of the delegation that an autonomous redemption keeps.
pub record Bounded (d : Delegation) (opts : DelegationRedemptionOpts) (ctx : GateContext)
    : Type 0 where
  pub target : String
  pub authority : Authority
  pub amount : ℕ
  pub normal : normalize_address opts.target ≡ ok target
  pub decoded : decode_authority d.caveats opts.enforcers ≡ ok authority
  pub whole : opts.amount ≡ minor amount
  pub positive : 0 < amount
  pub under_cap : amount ≤ cap_of authority
  pub under_period_cap :
      spent_of (ctx.period_spend (mandate_id_of d opts)) + amount ≤ period_cap_of authority
  pub unexpired : ctx.now < get_or authority.expires_unix 32_503_680_000 * 1000
  pub allowed : (targets : List String) → authority.targets ≡ some targets → In target targets

-- Where an autonomous payment rests on one mandate only, it is that mandate.
module _ (d : Delegation) (opts : DelegationRedemptionOpts) (ctx : GateContext) (target : String)
    (a : Authority) (granted expires : ℕ) where
  abbrev m : Mandate
  m = decoded_mandate d opts a granted expires

  abbrev intent : PaymentIntent
  intent = redemption_intent d opts target ctx.now
