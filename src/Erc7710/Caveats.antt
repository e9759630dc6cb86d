-- ===== src/Erc7710/Caveats.antt =====
-- What `mandateToDelegation` of src/erc7710/index.ts writes into each caveat, as it is read back.
use agentworth.Prelude.{
  ℕ, ◌≡◌, refl, sym, ap, ◌∙◌, String, Option, none, some, List, [], ◌∷◌, inl, inr, Bool-cases,
  str_eq, eq_iff, ◌≢◌,
}
use agentworth.Types.{PayeeScope, payee_class, allowlist}
use agentworth.Prelude.Text.{units}
use agentworth.Erc7710.Hex.{Result, ok, bind-ok, ok-inj, hex_to_bytes, parse_bytes, bytes_to_hex}
use agentworth.Erc7710.Terms.{
  normalize_address, address_bytes, encode_allowed_targets_terms, decode_allowed_targets_terms,
}
use agentworth.Erc7710.Fields.{Address-bytes, normalize_address-Address}
use agentworth.Erc7710.Targets.{Normals, allowed_targets_roundtrip}
use agentworth.Erc7710.Delegation.{Caveat, given, required, caveat}
use agentworth.Erc7710.Redemption.{norm}

-- A normal address is its own normal form.
pub normalize_address_twice :
    (addr n : String) → normalize_address addr ≡ ok n → normalize_address n ≡ ok n
unfolding normalize_address
normalize_address_twice addr n h =
    let a = normalize_address-Address addr n h in rw (Address-bytes n a, a.twenty, sym a.text) refl

pub normalize_address-ne : (addr n : String) → normalize_address addr ≡ ok n → addr ≢ ""
unfolding normalize_address hex_to_bytes parse_bytes units
normalize_address-ne addr n h e = cc (rw e at h)

-- A caveat names the normal form of its enforcer, and its terms are read as the value.
pub record Reads {A : Type 0} (enforcer : String) (decode : String → Result A) (v : A) (c : Caveat)
    : Type 0 where
  pub key : normalize_address enforcer ≡ ok c.enforcer
  pub value : decode c.terms ≡ ok v

pub caveat-Reads :
    {A : Type 0} (enforcer : String) (r : Result (List ℕ)) (c : Caveat) (decode : String → Result A)
    (v : A)
    → caveat enforcer r ≡ ok c
    → (terms : List ℕ) × (r ≡ ok terms) × (decode (bytes_to_hex terms) ≡ ok v)
    → Reads enforcer decode v c
caveat-Reads enforcer r c decode v h (terms, written, read) =
    let (address, normal, h₁) = bind-ok (normalize_address enforcer) _ _ h in
    let (bytes, e, h₂) = bind-ok r _ _ h₁ in
    let same : terms ≡ bytes = ok-inj (sym written ∙ e) in
    let made = ok-inj h₂ in
    record {
      key = normal ∙ ap (λ (c : Caveat). ok c.enforcer) made;
      value = sym (ap (λ (c : Caveat). decode c.terms) made) ∙ rw (sym same) read;
    }

pub required-given : (o : Option String) (a : String) → required o ≡ ok a → o ≡ some a
required-given none a h = cc
required-given (some b) a h = ap some (ok-inj h)

pub norm-given :
    (o : Option String) (a k : String)
    → given o ≡ some a
    → normalize_address a ≡ ok k
    → norm (given o) ≡ ok k
norm-given o a k g h = rw g h

pub norm-some : (a k : String) → normalize_address a ≡ ok k → norm (given (some a)) ≡ ok k
norm-some a k h = elim (Bool-cases (str_eq a "")) [
  | inl empty ↦ absurd (normalize_address-ne a k h ((eq_iff a "").0 empty))
  | inr other ↦ rw other h
]

-- What the caveat of the targets is, for each scope.
abbrev pub TargetsOf : PayeeScope → Option (List String) → Type 0
TargetsOf (payee_class c) targets = targets ≡ none
TargetsOf (allowlist values) targets = (ns : List String) × (targets ≡ some ns) × Normals values ns

address_bytes-Normals :
    (addresses : List String) (each : List (List ℕ))
    → address_bytes addresses ≡ ok each
    → (ns : List String) × Normals addresses ns
unfolding address_bytes
address_bytes-Normals [] each h = ([], tt)
address_bytes-Normals (a ∷ addresses) each h =
    let (n, normal, h₁) = bind-ok (normalize_address a) _ _ h in
    let (bytes, e, h₂) = bind-ok (hex_to_bytes n) _ _ h₁ in
    let (rest, e', h₃) = bind-ok (address_bytes addresses) _ _ h₂ in
    let (ns, normals) = address_bytes-Normals addresses rest e' in (n ∷ ns, (normal, normals))

pub encode_allowed_targets_terms-Normals :
    (values : List String) (bytes : List ℕ)
    → encode_allowed_targets_terms values ≡ ok bytes
    → (ns : List String) × Normals values ns
      × (terms : List ℕ) × (encode_allowed_targets_terms values ≡ ok terms)
      × (decode_allowed_targets_terms (bytes_to_hex terms) ≡ ok ns)
unfolding encode_allowed_targets_terms
encode_allowed_targets_terms-Normals [] bytes h = cc
encode_allowed_targets_terms-Normals (a ∷ addresses) bytes h =
    let (each, e, h₁) = bind-ok (address_bytes (a ∷ addresses)) _ _ h in
    let (ns, normals) = address_bytes-Normals (a ∷ addresses) each e in
    let (terms, written, read) = allowed_targets_roundtrip a addresses ns normals in
    (ns, normals, terms, written, read)
