-- ===== src/Erc7710/Authority.antt =====
-- The caveats that `mandateToDelegation` of src/erc7710/index.ts writes, each under the key of its
-- enforcer and with the value that it reads back to.
use agentworth.Prelude.{
  ℕ, ◌^◌, ◌<◌, ◌≡◌, refl, sym, ◌∙◌, subst, String, false, Option, none, some, List, [], ◌∷◌, arith,
  inr, ◌==◌,
}
use agentworth.Types.{Period, day, week, month, PayeeScope, payee_class, allowlist}
use agentworth.Erc7710.Hex.{Result, ok, bind-ok, ok-inj}
use agentworth.Erc7710.Terms.{
  normalize_address, PeriodGrant, decode_native_amount_terms, encode_erc20_amount_terms,
  decode_erc20_amount_terms, decode_allowed_targets_terms, encode_allowed_targets_terms,
  encode_period_terms, decode_period_terms, decode_native_period_terms,
}
use agentworth.Erc7710.Fields.{to_number_exact}
use agentworth.Erc7710.Amounts.{
  decode_native_amount_terms-encode_native_amount_terms,
  decode_erc20_amount_terms-encode_erc20_amount_terms,
}
use agentworth.Erc7710.RoundTrip.{
  decode_period_terms-encode_period_terms, decode_native_period_terms-encode_native_period_terms,
}
use agentworth.Erc7710.Delegation.{
  Caveat, EnforcerAddresses, given, required, caveat, amount_caveat, period_caveat, target_caveats,
  period_seconds,
}
use agentworth.Erc7710.Redemption.{norm, read_amount, read_grant}
use agentworth.Erc7710.Caveats.{
  Reads, caveat-Reads, normalize_address_twice, normalize_address-ne, TargetsOf, norm-given,
  required-given, encode_allowed_targets_terms-Normals,
}
use agentworth.Erc7710.Bridge.{Keys, TargetSlot, differ, get-keyed_here}

pub Reads-own :
    {A : Type 0} {enforcer : String} {decode : String → Result A} {v : A} (c : Caveat)
    → Reads enforcer decode v c
    → normalize_address c.enforcer ≡ ok c.enforcer
Reads-own {enforcer = enforcer} c r = normalize_address_twice enforcer c.enforcer r.key

-- The key of an enforcer that a caveat names.
Reads-key :
    {A : Type 0} {decode : String → Result A} {v : A} (c : Caveat) (o : Option String)
    (enforcer key : String)
    → given o ≡ some enforcer
    → norm (given o) ≡ ok key
    → Reads enforcer decode v c
    → key ≡ c.enforcer
Reads-key c o enforcer key g h r = ok-inj (sym h ∙ norm-given o enforcer c.enforcer g r.key)

pub period_seconds-lt : (p : Period) → (0 < period_seconds p) × (period_seconds p < 2 ^ 53)
period_seconds-lt day = (omega arith, omega arith)
period_seconds-lt week = (omega arith, omega arith)
period_seconds-lt month = (omega arith, omega arith)

caveat-terms :
    (enforcer : String) (r : Result (List ℕ)) (c : Caveat)
    → caveat enforcer r ≡ ok c
    → (bytes : List ℕ) × (r ≡ ok bytes)
caveat-terms enforcer r c h =
    let (address, normal, h₁) = bind-ok (normalize_address enforcer) _ _ h in
    let (bytes, e, h₂) = bind-ok r _ _ h₁ in (bytes, e)

encode_erc20_amount_terms-normal :
    (token : String) (cap : ℕ) (bytes : List ℕ)
    → encode_erc20_amount_terms token cap ≡ ok bytes
    → (n : String) × (normalize_address token ≡ ok n)
unfolding encode_erc20_amount_terms
encode_erc20_amount_terms-normal token cap bytes h =
    let (n, normal, rest) = bind-ok (normalize_address token) _ _ h in (n, normal)

encode_period_terms-normal :
    (token : String) (cap duration start : ℕ) (bytes : List ℕ)
    → 0 < duration
    → encode_period_terms token cap duration start ≡ ok bytes
    → (n : String) × (normalize_address token ≡ ok n)
unfolding encode_period_terms
encode_period_terms-normal token cap duration start bytes pos h =
    let e : duration == 0 ≡ false = ground arith in
    let (n, normal, rest) = bind-ok (normalize_address token) _ _ (rw e at h) in (n, normal)

module _ (e : EnforcerAddresses) (k : Keys e) where
  no_slot : TargetSlot e k [] none
  no_slot = record { own = tt; clear = λ j h. tt; found = λ m h. rw h refl }

  one_slot :
      (c : Caveat) (ns : List String)
      → k.tg ≡ c.enforcer
      → normalize_address c.enforcer ≡ ok c.enforcer
      → decode_allowed_targets_terms c.terms ≡ ok ns
      → TargetSlot e k (c ∷ []) (some ns)
  one_slot c ns at own read =
      let ne = normalize_address-ne c.enforcer c.enforcer own in
      record {
        own = (own, tt);
        clear = λ j h. ((differ j c.enforcer (rw at at h) (inr ne)).1, tt);
        found = λ m h. rw (at, get-keyed_here c [] m tt, read) refl;
      }

  pub target_caveats-TargetSlot :
      (scope : PayeeScope) (cs : List Caveat)
      → target_caveats scope e ≡ ok cs
      → (t : Option (List String)) × TargetsOf scope t × TargetSlot e k cs t
  unfolding target_caveats
  target_caveats-TargetSlot (payee_class c) cs h =
      (none, refl, subst (λ cs. TargetSlot e k cs none) (ok-inj h) no_slot)
  target_caveats-TargetSlot (allowlist values) cs h =
      let (enforcer, asked, h₁) = bind-ok (required (given e.allowed_targets)) _ _ h in
      let terms = encode_allowed_targets_terms values in
      let (c, made, h₂) = bind-ok (caveat enforcer terms) _ _ h₁ in
      let (bytes, written) = caveat-terms enforcer terms c made in
      let (ns, normals, ws, coded, decodes) =
        encode_allowed_targets_terms-Normals values bytes written in
      let r =
        caveat-Reads enforcer terms c decode_allowed_targets_terms ns made (ws, coded, decodes) in
      let g = required-given (given e.allowed_targets) enforcer asked in
      (
        some ns,
        (ns, refl, normals),
        subst (λ cs. TargetSlot e k cs (some ns)) (ok-inj h₂)
            (one_slot c ns (Reads-key c e.allowed_targets enforcer k.tg g k.tg_key r)
              (Reads-own c r) r.value),
      )

  -- The caveat of the cap of a payment, for a token or not.
  pub amount_caveat-native :
      (cap : ℕ) (c : Caveat)
      → cap < 2 ^ 53
      → amount_caveat none e cap ≡ ok c
      → (k.na ≡ c.enforcer)
        × (normalize_address c.enforcer ≡ ok c.enforcer)
        × (read_amount none (some c) ≡ ok (some cap))
  unfolding amount_caveat
  amount_caveat-native cap c small h =
      let o = e.native_token_transfer_amount in
      let (enforcer, asked, made) = bind-ok (required (given o)) _ _ h in
      let g = required-given (given o) enforcer asked in
      let back = decode_native_amount_terms-encode_native_amount_terms cap (omega arith) in
      let r = caveat-Reads enforcer _ c decode_native_amount_terms cap made back in
      let exact = to_number_exact cap small in
      (Reads-key c o enforcer k.na g k.na_key r, Reads-own c r, rw (r.value, exact) refl)

  pub amount_caveat-token :
      (token : String) (cap : ℕ) (c : Caveat)
      → cap < 2 ^ 53
      → amount_caveat (some token) e cap ≡ ok c
      → (k.ea ≡ c.enforcer)
        × (normalize_address c.enforcer ≡ ok c.enforcer)
        × ((other : Option Caveat) → read_amount (some c) other ≡ ok (some cap))
  unfolding amount_caveat
  amount_caveat-token token cap c small h =
      let o = e.erc20_transfer_amount in
      let (enforcer, asked, made) = bind-ok (required (given o)) _ _ h in
      let g = required-given (given o) enforcer asked in
      let (bytes, written) = caveat-terms enforcer _ c made in
      let (n, normal) = encode_erc20_amount_terms-normal token cap bytes written in
      let back =
        decode_erc20_amount_terms-encode_erc20_amount_terms token n cap normal (omega arith) in
      let r = caveat-Reads enforcer _ c decode_erc20_amount_terms _ made back in
      let exact = to_number_exact cap small in
      (Reads-key c o enforcer k.ea g k.ea_key r, Reads-own c r, λ other. rw (r.value, exact) refl)

  -- The caveat of the budget of a period.
  module _ (cap duration start : ℕ) (c : Caveat) (small : cap < 2 ^ 53) (pos : 0 < duration)
      (short : duration < 2 ^ 53) (early : start < 2 ^ 53) where
    abbrev grant : PeriodGrant
    grant = record { period_amount = cap; period_duration = duration; start_date = start }

    pub period_caveat-native :
        period_caveat none e cap duration start ≡ ok c
        → (k.np ≡ c.enforcer)
          × (normalize_address c.enforcer ≡ ok c.enforcer)
          × (read_grant none (some c) ≡ ok (some grant))
    unfolding period_caveat
    period_caveat-native h =
        let o = e.native_token_period_transfer in
        let (enforcer, asked, made) = bind-ok (required (given o)) _ _ h in
        let g = required-given (given o) enforcer asked in
        let back =
          decode_native_period_terms-encode_native_period_terms cap duration start (omega arith) pos
            short early in
        let r = caveat-Reads enforcer _ c decode_native_period_terms grant made back in
        let exact = to_number_exact cap small in
        (Reads-key c o enforcer k.np g k.np_key r, Reads-own c r, rw (r.value, exact) refl)

    pub period_caveat-token :
        (token : String)
        → period_caveat (some token) e cap duration start ≡ ok c
        → (k.ep ≡ c.enforcer)
          × (normalize_address c.enforcer ≡ ok c.enforcer)
          × ((other : Option Caveat) → read_grant (some c) other ≡ ok (some grant))
    unfolding period_caveat
    period_caveat-token token h =
        let o = e.erc20_period_transfer in
        let (enforcer, asked, made) = bind-ok (required (given o)) _ _ h in
        let g = required-given (given o) enforcer asked in
        let (bytes, written) = caveat-terms enforcer _ c made in
        let (n, normal) = encode_period_terms-normal token cap duration start bytes pos written in
        let back =
          decode_period_terms-encode_period_terms cap duration start (omega arith) pos short early
            token n normal in
        let r = caveat-Reads enforcer _ c decode_period_terms (n, grant) made back in
        let exact = to_number_exact cap small in
        (Reads-key c o enforcer k.ep g k.ep_key r, Reads-own c r, λ other. rw (r.value, exact) refl)
