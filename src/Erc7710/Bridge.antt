-- ===== src/Erc7710/Bridge.antt =====
-- `gateDelegationRedemption` of src/erc7710/index.ts reads from a delegation the authority that
-- `mandateToDelegation` wrote into it.
use agentworth.Prelude.{
  ◌≢◌, ◌⊎◌, ℕ, ◌≡◌, refl, sym, ◌∙◌, String, false, Option, none, some, List, [], ◌∷◌, arith, All,
  inl, inr, Bool-cases, str_eq, eq_iff, eq_refl,
}
use agentworth.Prelude.Map.{Map, get, set, get-set}
use agentworth.Erc7710.Hex.{ok}
use agentworth.Erc7710.Terms.{normalize_address, PeriodGrant}
use agentworth.Erc7710.Delegation.{Caveat, EnforcerAddresses, given}
use agentworth.Erc7710.Redemption.{
  norm, look, by_address, Authority, read_expiry, read_amount, read_grant, read_targets,
  read_authority,
}
use agentworth.Erc7710.Caveats.{normalize_address-ne}

-- Only absent enforcers share a key.
abbrev pub Apart : List String → Type 0
Apart [] = Unit
Apart (k ∷ keys) = All (λ j. k ≡ j → k ≡ "") keys × Apart keys

-- The keys of the enforcers: their normal forms, or the empty text.
pub record Keys (e : EnforcerAddresses) : Type 0 where
  pub ts : String
  pub ea : String
  pub na : String
  pub ep : String
  pub np : String
  pub tg : String
  pub ts_key : norm (given (some e.timestamp)) ≡ ok ts
  pub ea_key : norm (given e.erc20_transfer_amount) ≡ ok ea
  pub na_key : norm (given e.native_token_transfer_amount) ≡ ok na
  pub ep_key : norm (given e.erc20_period_transfer) ≡ ok ep
  pub np_key : norm (given e.native_token_period_transfer) ≡ ok np
  pub tg_key : norm (given e.allowed_targets) ≡ ok tg
  pub apart : Apart (ts ∷ ea ∷ na ∷ ep ∷ np ∷ tg ∷ [])

module _ (e : EnforcerAddresses) (k : Keys e) (m : Map Caveat) where
  looked : (a : Option String) (j : String) → norm (given a) ≡ ok j → look m a ≡ ok (get j m)
  looked a j h = rw h refl

  read_authority_of :
      (x : Option ℕ) (c : Option ℕ) (g : Option PeriodGrant) (t : Option (List String))
      → read_expiry (get k.ts m) ≡ ok x
      → read_amount (get k.ea m) (get k.na m) ≡ ok c
      → read_grant (get k.ep m) (get k.np m) ≡ ok g
      → read_targets (get k.tg m) ≡ ok t
      → read_authority e m
        ≡ ok (record { expires_unix = x; per_tx_cap = c; grant = g; targets = t })
  unfolding read_authority
  read_authority_of x c g t hx hc hg ht =
      rw (k.ts_key, hx, k.ea_key, k.na_key, hc, k.ep_key, k.np_key, hg, k.tg_key, ht) refl

-- Each caveat under the key of its enforcer.
abbrev pub keyed : List Caveat → Map Caveat → Map Caveat
keyed [] m = m
keyed (c ∷ caveats) m = keyed caveats (set c.enforcer c m)

pub by_address-keyed :
    (caveats : List Caveat) (m : Map Caveat)
    → All (λ (c : Caveat). normalize_address c.enforcer ≡ ok c.enforcer) caveats
    → by_address caveats m ≡ ok (keyed caveats m)
unfolding by_address
by_address-keyed [] m h = refl
by_address-keyed (c ∷ caveats) m (h, hs) = rw h (by_address-keyed caveats (set c.enforcer c m) hs)

-- No caveat stands under another key.
get-keyed :
    (j : String) (caveats : List Caveat) (m : Map Caveat)
    → All (λ (c : Caveat). str_eq c.enforcer j ≡ false) caveats
    → get j (keyed caveats m) ≡ get j m
get-keyed j [] m h = refl
get-keyed j (c ∷ caveats) m (h, hs) =
    get-keyed j caveats (set c.enforcer c m) hs ∙ rw (get-set c.enforcer j c m, h) refl

pub get-keyed_here :
    (c : Caveat) (caveats : List Caveat) (m : Map Caveat)
    → All (λ (d : Caveat). str_eq d.enforcer c.enforcer ≡ false) caveats
    → get c.enforcer (keyed (c ∷ caveats) m) ≡ some c
get-keyed_here c caveats m hs =
    get-keyed c.enforcer caveats (set c.enforcer c m) hs
    ∙ rw (get-set c.enforcer c.enforcer c m, eq_refl) refl

-- Keys of which one is no empty text differ, if only empty ones may agree.
pub differ :
    (a b : String)
    → (a ≡ b → a ≡ "")
    → (a ≢ "") ⊎ (b ≢ "")
    → (str_eq a b ≡ false) × (str_eq b a ≡ false)
differ a b h some_key = elim (Bool-cases (str_eq a b)) [
  | inl same ↦
      let e = (eq_iff a b).0 same in
      elim some_key [ inl ne ↦ absurd (ne (h e)) | inr ne ↦ absurd (ne (sym e ∙ h e)) ]
  | inr other ↦ (other, ground (arith, other, eq_iff a b, eq_iff b a))
]

flip : {a b : String} → (a ≡ b → a ≡ "") → b ≡ a → b ≡ ""
flip h e = e ∙ h (sym e)

module _ (e : EnforcerAddresses) (k : Keys e) where
  -- The caveat of the targets, if there is one.
  pub record TargetSlot (cs : List Caveat) (t : Option (List String)) : Type 0 where
    pub own : All (λ (c : Caveat). normalize_address c.enforcer ≡ ok c.enforcer) cs
    pub clear :
        (j : String) → (j ≡ k.tg → j ≡ "") → All (λ (c : Caveat). str_eq c.enforcer j ≡ false) cs
    pub found : (m : Map Caveat) → get k.tg m ≡ none → read_targets (get k.tg (keyed cs m)) ≡ ok t

  module _ (c₁ c₂ c₃ : Caveat) (cs : List Caveat) (x c : ℕ) (g : PeriodGrant)
      (t : Option (List String)) (slot : TargetSlot cs t)
      (own₁ : normalize_address c₁.enforcer ≡ ok c₁.enforcer)
      (own₂ : normalize_address c₂.enforcer ≡ ok c₂.enforcer)
      (own₃ : normalize_address c₃.enforcer ≡ ok c₃.enforcer) (at₁ : k.ts ≡ c₁.enforcer)
      (read₁ : read_expiry (some c₁) ≡ ok (some x)) where
    abbrev pub stored : Map Caveat
    stored = keyed (c₁ ∷ c₂ ∷ c₃ ∷ cs) []

    abbrev pub authority : Authority
    authority = record { expires_unix = some x; per_tx_cap = some c; grant = some g; targets = t }

    absent : (j : String) → Path (Option Caveat) (get j []) none
    unfolding get
    absent j = refl

    module _ (apart₁₂ : c₁.enforcer ≡ c₂.enforcer → c₁.enforcer ≡ "")
        (apart₁₃ : c₁.enforcer ≡ c₃.enforcer → c₁.enforcer ≡ "")
        (apart₂₃ : c₂.enforcer ≡ c₃.enforcer → c₂.enforcer ≡ "")
        (apart₁ : c₁.enforcer ≡ k.tg → c₁.enforcer ≡ "")
        (apart₂ : c₂.enforcer ≡ k.tg → c₂.enforcer ≡ "")
        (apart₃ : c₃.enforcer ≡ k.tg → c₃.enforcer ≡ "") where
      -- A key that differs from another, if a caveat stands under it.
      away :
          (d : Caveat) (j : String)
          → normalize_address d.enforcer ≡ ok d.enforcer
          → (d.enforcer ≡ j → d.enforcer ≡ "")
          → (str_eq d.enforcer j ≡ false) × (str_eq j d.enforcer ≡ false)
      away d j own h = differ d.enforcer j h (inl (normalize_address-ne d.enforcer d.enforcer own))

      first : get c₁.enforcer stored ≡ some c₁
      first = get-keyed_here c₁ (c₂ ∷ c₃ ∷ cs) [] (
        (away c₁ c₂.enforcer own₁ apart₁₂).1,
        ((away c₁ c₃.enforcer own₁ apart₁₃).1, slot.clear c₁.enforcer apart₁),
      )

      second : get c₂.enforcer stored ≡ some c₂
      second =
          get-keyed_here c₂ (c₃ ∷ cs) _
            ((away c₂ c₃.enforcer own₂ apart₂₃).1, slot.clear c₂.enforcer apart₂)

      third : get c₃.enforcer stored ≡ some c₃
      third = get-keyed_here c₃ cs _ (slot.clear c₃.enforcer apart₃)

      last : read_targets (get k.tg stored) ≡ ok t
      last = slot.found (keyed (c₁ ∷ c₂ ∷ c₃ ∷ []) []) (
          get-keyed k.tg (c₁ ∷ c₂ ∷ c₃ ∷ []) [] (
            (away c₁ k.tg own₁ apart₁).0,
            ((away c₂ k.tg own₂ apart₂).0, ((away c₃ k.tg own₃ apart₃).0, tt)),
          )
          ∙ absent k.tg)

      missing :
          (j : String)
          → (c₁.enforcer ≡ j → c₁.enforcer ≡ "")
          → (c₂.enforcer ≡ j → c₂.enforcer ≡ "")
          → (c₃.enforcer ≡ j → c₃.enforcer ≡ "")
          → (j ≡ k.tg → j ≡ "")
          → get j stored ≡ none
      missing j h₁ h₂ h₃ h =
          get-keyed j (c₁ ∷ c₂ ∷ c₃ ∷ cs) [] (
            (away c₁ j own₁ h₁).0,
            ((away c₂ j own₂ h₂).0, ((away c₃ j own₃ h₃).0, slot.clear j h)),
          )
          ∙ absent j

    pub token_authority :
        k.ea ≡ c₂.enforcer
        → k.ep ≡ c₃.enforcer
        → ((o : Option Caveat) → read_amount (some c₂) o ≡ ok (some c))
        → ((o : Option Caveat) → read_grant (some c₃) o ≡ ok (some g))
        → read_authority e stored ≡ ok authority
    token_authority at₂ at₃ read₂ read₃ =
        let a₁₂ = rw (at₁, at₂) at k.apart.0.0 in
        let a₁₃ = rw (at₁, at₃) at k.apart.0.1.1.0 in
        let a₂₃ = rw (at₂, at₃) at k.apart.1.0.1.0 in
        let a₁ = rw at₁ at k.apart.0.1.1.1.1.0 in
        let a₂ = rw at₂ at k.apart.1.0.1.1.1.0 in
        let a₃ = rw at₃ at k.apart.1.1.1.0.1.0 in
        read_authority_of e k stored (some x) (some c) (some g) t
          (rw (at₁, first a₁₂ a₁₃ a₂₃ a₁ a₂ a₃) read₁)
          (rw (at₂, second a₁₂ a₁₃ a₂₃ a₁ a₂ a₃) (read₂ (get k.na stored)))
          (rw (at₃, third a₁₂ a₁₃ a₂₃ a₁ a₂ a₃) (read₃ (get k.np stored)))
          (last a₁₂ a₁₃ a₂₃ a₁ a₂ a₃)

    pub native_authority :
        k.na ≡ c₂.enforcer
        → k.np ≡ c₃.enforcer
        → read_amount none (some c₂) ≡ ok (some c)
        → read_grant none (some c₃) ≡ ok (some g)
        → read_authority e stored ≡ ok authority
    native_authority at₂ at₃ read₂ read₃ =
        let a₁₂ = rw (at₁, at₂) at k.apart.0.1.0 in
        let a₁₃ = rw (at₁, at₃) at k.apart.0.1.1.1.0 in
        let a₂₃ = rw (at₂, at₃) at k.apart.1.1.0.1.0 in
        let a₁ = rw at₁ at k.apart.0.1.1.1.1.0 in
        let a₂ = rw at₂ at k.apart.1.1.0.1.1.0 in
        let a₃ = rw at₃ at k.apart.1.1.1.1.0.0 in
        let no_amount =
          missing a₁₂ a₁₃ a₂₃ a₁ a₂ a₃ k.ea (rw at₁ at k.apart.0.0) (rw at₂ at (flip k.apart.1.0.0))
            (rw at₃ at (flip k.apart.1.0.1.1.0)) k.apart.1.0.1.1.1.0 in
        let no_grant =
          missing a₁₂ a₁₃ a₂₃ a₁ a₂ a₃ k.ep (rw at₁ at k.apart.0.1.1.0) (rw at₂ at k.apart.1.1.0.0)
            (rw at₃ at (flip k.apart.1.1.1.0.0)) k.apart.1.1.1.0.1.0 in
        read_authority_of e k stored (some x) (some c) (some g) t
          (rw (at₁, first a₁₂ a₁₃ a₂₃ a₁ a₂ a₃) read₁)
          (rw (no_amount, at₂, second a₁₂ a₁₃ a₂₃ a₁ a₂ a₃) read₂)
          (rw (no_grant, at₃, third a₁₂ a₁₃ a₂₃ a₁ a₂ a₃) read₃) (last a₁₂ a₁₃ a₂₃ a₁ a₂ a₃)
