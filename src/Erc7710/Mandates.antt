-- ===== src/Erc7710/Mandates.antt =====
-- The round trip of an authority in src/erc7710/index.ts: from a mandate to a delegation and back.
use agentworth.Prelude.{
  ◌/◌, ◌^◌, ◌<◌, ◌≡◌, refl, sym, ap, ◌∙◌, subst, String, Option, none, some, List, [], ◌∷◌, arith,
}
use agentworth.Types.{Mandate}
use agentworth.Erc7710.Hex.{ok, bind-ok, ok-inj}
use agentworth.Erc7710.Terms.{normalize_address, encode_timestamp_terms, decode_timestamp_terms}
use agentworth.Erc7710.Amounts.{decode_timestamp_terms-encode_timestamp_terms}
use agentworth.Erc7710.Delegation.{
  Caveat, EnforcerAddresses, given, caveat, amount_caveat, period_caveat, target_caveats,
  period_seconds, MandateToDelegationOpts, Delegation, mandate_to_delegation,
}
use agentworth.Erc7710.Redemption.{Authority, decode_authority}
use agentworth.Erc7710.Caveats.{Reads, caveat-Reads, TargetsOf, norm-some}
use agentworth.Erc7710.Bridge.{
  Keys, TargetSlot, by_address-keyed, token_authority, native_authority,
}
use agentworth.Erc7710.Authority.{
  Reads-own, target_caveats-TargetSlot, amount_caveat-native, amount_caveat-token,
  period_caveat-native, period_caveat-token, period_seconds-lt,
}

-- The authority of a mandate, with its dates in whole seconds.
abbrev pub authority_of : Mandate → Option (List String) → Authority
authority_of m targets = record {
  expires_unix = some (m.expires_at / 1000);
  per_tx_cap = some m.per_tx_cap;
  grant = some (record {
    period_amount = m.per_period_cap;
    period_duration = period_seconds m.period;
    start_date = m.granted_at / 1000;
  });
  targets = targets;
}

-- Amounts and dates that a JavaScript number holds exactly.
pub record Exact (m : Mandate) : Type 0 where
  pub cap : m.per_tx_cap < 2 ^ 53
  pub budget : m.per_period_cap < 2 ^ 53
  pub since : m.granted_at / 1000 < 2 ^ 53
  pub until : m.expires_at / 1000 < 2 ^ 53

module _ (m : Mandate) (e : EnforcerAddresses) (k : Keys e) (exact : Exact m)
    (expiry amount budget : Caveat) (cs : List Caveat) (t : Option (List String))
    (slot : TargetSlot e k cs t)
    (made : caveat e.timestamp (encode_timestamp_terms (m.expires_at / 1000) 0) ≡ ok expiry) where
  dated :
      Reads e.timestamp decode_timestamp_terms
        (record { after_unix = 0; before_unix = m.expires_at / 1000 })
        expiry
  dated = caveat-Reads e.timestamp _ expiry decode_timestamp_terms _ made (
      decode_timestamp_terms-encode_timestamp_terms (m.expires_at / 1000) 0 exact.until
        (omega arith))

  dated_key : k.ts ≡ expiry.enforcer
  dated_key = ok-inj (sym k.ts_key ∙ norm-some e.timestamp expiry.enforcer dated.key)

  read_back :
      (token : Option String)
      → amount_caveat token e m.per_tx_cap ≡ ok amount
      → period_caveat token e m.per_period_cap (period_seconds m.period) (m.granted_at / 1000)
        ≡ ok budget
      → decode_authority (expiry ∷ amount ∷ budget ∷ cs) e ≡ ok (authority_of m t)
  unfolding decode_authority
  read_back none ha hb =
      let (pos, short) = period_seconds-lt m.period in
      let (at₂, own₂, read₂) = amount_caveat-native e k m.per_tx_cap amount exact.cap ha in
      let (at₃, own₃, read₃) =
        period_caveat-native e k m.per_period_cap (period_seconds m.period) (m.granted_at / 1000)
          budget exact.budget pos short exact.since hb in
      let own₁ = Reads-own expiry dated in
      rw (by_address-keyed (expiry ∷ amount ∷ budget ∷ cs) [] (own₁, (own₂, (own₃, slot.own)))) (
        native_authority e k expiry amount budget cs (m.expires_at / 1000) m.per_tx_cap _ t slot
          own₁ own₂ own₃ dated_key (rw dated.value refl) at₂ at₃ read₂ read₃)
  read_back (some token) ha hb =
      let (pos, short) = period_seconds-lt m.period in
      let (at₂, own₂, read₂) = amount_caveat-token e k token m.per_tx_cap amount exact.cap ha in
      let (at₃, own₃, read₃) =
        period_caveat-token e k m.per_period_cap (period_seconds m.period) (m.granted_at / 1000)
          budget exact.budget pos short exact.since token hb in
      let own₁ = Reads-own expiry dated in
      rw (by_address-keyed (expiry ∷ amount ∷ budget ∷ cs) [] (own₁, (own₂, (own₃, slot.own)))) (
        token_authority e k expiry amount budget cs (m.expires_at / 1000) m.per_tx_cap _ t slot own₁
          own₂ own₃ dated_key (rw dated.value refl) at₂ at₃ read₂ read₃)

-- The authority that is read from the delegation of a mandate is the mandate's: the expiry and the
-- start of the grant in whole seconds, the caps, the length of the period and, for an allowlist, its
-- addresses in their normal form. The enforcers have normal forms, which are different; the caps and
-- the dates are below 2^53; and the caller does not override the length of the period.
pub decode_authority-mandate_to_delegation :
    (m : Mandate) (opts : MandateToDelegationOpts) (d : Delegation)
    → Keys opts.enforcers
    → Exact m
    → opts.period_seconds_override ≡ none
    → mandate_to_delegation m opts ≡ ok d
    → (t : Option (List String)) × TargetsOf m.scope t
      × (decode_authority d.caveats opts.enforcers ≡ ok (authority_of m t))
unfolding mandate_to_delegation
decode_authority-mandate_to_delegation m opts d k exact standard h =
    let e = opts.enforcers in
    let token = given opts.token in
    let dates = encode_timestamp_terms (m.expires_at / 1000) 0 in
    let (expiry, made, h₁) = bind-ok (caveat e.timestamp dates) _ _ h in
    let (amount, ha, h₂) = bind-ok (amount_caveat token e m.per_tx_cap) _ _ h₁ in
    let (budget, hb, h₃) = bind-ok (period_caveat token e m.per_period_cap _ _) _ _ h₂ in
    let (cs, hc, h₄) = bind-ok (target_caveats m.scope e) _ _ h₃ in
    let (delegate, _, h₅) = bind-ok (normalize_address opts.delegate) _ _ h₄ in
    let (delegator, _, h₆) = bind-ok (normalize_address opts.delegator) _ _ h₅ in
    let (t, targets, slot) = target_caveats-TargetSlot e k m.scope cs hc in
    let listed = ap (λ (d : Delegation). d.caveats) (ok-inj h₆) in
    (
      t,
      targets,
      subst (λ caveats. decode_authority caveats e ≡ ok (authority_of m t)) listed
          (read_back m e k exact expiry amount budget cs t slot made token ha (rw standard at hb)),
    )
