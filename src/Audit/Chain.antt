-- ===== src/Audit/Chain.antt =====
-- The chain of src/core/audit.ts: what an append keeps, and what a verified log fixes.
use agentworth.Prelude.{
  ℕ, ◌≡◌, refl, sym, ap, ◌∙◌, ◌≢◌, ◌⊎◌, inl, inr, String, Option, none, some, List, [], ◌∷◌, ◌++◌,
  arith, eq_iff, eq_refl, length, ℕ_discrete, map,
}
use agentworth.Prelude.Map.{String_discrete}
use agentworth.Audit.{
  AuditEventType, Payload, AuditEntry, AuditKeys, genesis, last_hash, next_entry, append, valid,
  check_signature, check_entry, then_verify, verify_from, verify,
}

-- What an entry commits to by its hash.
pub record Content : Type 0 where
  pub seq : ℕ
  pub ts : ℕ
  pub type : AuditEventType
  pub payload : Payload
  pub prev_hash : String

abbrev pub content : AuditEntry → Content
content e = record {
  seq = e.seq;
  ts = e.ts;
  type = e.type;
  payload = e.payload;
  prev_hash = e.prev_hash;
}

abbrev pub digest : AuditKeys → Content → String
digest k c = k.hash_entry c.seq c.ts c.type c.payload c.prev_hash

verify_from-append :
    (k : AuditKeys) (prev : String) (log more : List AuditEntry)
    → verify_from k prev (log ++ more)
      ≡ then_verify (verify_from k prev log) (verify_from k (last_hash prev log) more)
unfolding verify_from last_hash
verify_from-append k prev [] more = refl
verify_from-append k prev (e ∷ log) more = ground (arith, verify_from-append k e.hash log more)

next_entry-valid :
    (k : AuditKeys) (log : List AuditEntry) (type : AuditEventType) (p : Payload) (ts : ℕ)
    → k.resolve_key k.current_version ≡ some k.current_key
    → check_entry k (last_hash genesis log) (next_entry k log type p ts) ≡ valid
unfolding check_entry next_entry
next_entry-valid k log type p ts resolves =
    rw (eq_refl, eq_refl, resolves, check_signature, eq_refl)

-- The chain stays valid when an entry is appended, if the current key resolves under its version.
pub verify-append :
    (k : AuditKeys) (log : List AuditEntry) (type : AuditEventType) (p : Payload) (ts : ℕ)
    → k.resolve_key k.current_version ≡ some k.current_key
    → verify k log ≡ valid
    → verify k (append k log type p ts) ≡ valid
unfolding verify append verify_from
verify-append k log type p ts resolves v =
    rw (verify_from-append k genesis log (next_entry k log type p ts ∷ []), v, next_entry-valid)

-- A log that verifies does so wherever at least the same keys are known.
module _ (k : AuditKeys) (key : String) (version : Option String)
    (keys : Option String → Option String)
    (more : (o : Option String) (s : String) → k.resolve_key o ≡ some s → keys o ≡ some s) where
  abbrev other : AuditKeys
  other = record k { current_key = key; current_version = version; resolve_key = keys }

  check_signature-more :
      (e : AuditEntry) (o : Option String)
      → k.resolve_key e.key_version ≡ o
      → check_signature k e o ≡ valid
      → check_signature other e (keys e.key_version) ≡ valid
  unfolding check_signature
  check_signature-more e none r h = cc
  check_signature-more e (some s) r h = rw (more e.key_version s r) h

  check_entry-more :
      (prev : String) (e : AuditEntry)
      → check_entry k prev e ≡ valid
      → check_entry other prev e ≡ valid
  unfolding check_entry
  check_entry-more prev e h = ground (arith, check_signature-more e _ refl)

  verify_from-more :
      (prev : String) (log : List AuditEntry)
      → verify_from k prev log ≡ valid
      → verify_from other prev log ≡ valid
  unfolding verify_from
  verify_from-more prev [] h = refl
  verify_from-more prev (e ∷ log) h =
      ground (arith, check_entry-more prev e, verify_from-more e.hash log)

  pub verify-resolve : (log : List AuditEntry) → verify k log ≡ valid → verify other log ≡ valid
  unfolding verify
  verify-resolve log h = verify_from-more genesis log h

Content-discrete : Discrete Content
Content-discrete = hlevel (ℕ_discrete, String_discrete)

-- Two different contents with one hash: what SHA-256 is trusted to withhold.
abbrev pub Collision : AuditKeys → Type 0
Collision k = (c : Content) × (d : Content) × (c ≢ d) × (digest k c ≡ digest k d)

-- A first entry that verifies links to what is before it, and its hash is that of its content.
verify_from-first :
    (k : AuditKeys) (prev : String) (e : AuditEntry) (es : List AuditEntry)
    → verify_from k prev (e ∷ es) ≡ valid
    → (e.prev_hash ≡ prev) × (e.hash ≡ digest k (content e)) × (verify_from k e.hash es ≡ valid)
unfolding verify_from check_entry check_signature
verify_from-first k prev e es h =
    ground (arith, eq_iff e.prev_hash prev, eq_iff (digest k (content e)) e.hash)

verify_from-inject :
    (k : AuditKeys) (p q : String) (xs ys : List AuditEntry)
    → verify_from k p xs ≡ valid
    → verify_from k q ys ≡ valid
    → length xs ≡ length ys
    → last_hash p xs ≡ last_hash q ys
    → ((map content xs ≡ map content ys) × (p ≡ q)) ⊎ Collision k
unfolding last_hash
verify_from-inject k p q [] [] vx vy n h = inl (refl, h)
verify_from-inject k p q [] (y ∷ ys) vx vy n h = absurd (omega arith)
verify_from-inject k p q (x ∷ xs) [] vx vy n h = absurd (omega arith)
verify_from-inject k p q (x ∷ xs) (y ∷ ys) vx vy n h =
    let (px, hx, rx) = verify_from-first k p x xs vx in
    let (py, hy, ry) = verify_from-first k q y ys vy in
    elim (verify_from-inject k x.hash y.hash xs ys rx ry (omega arith) h) [
      | inr found ↦ inr found
      | inl (rest, heads) ↦ elim (Content-discrete (content x) (content y)) [
        | yes same ↦ inl (cc, sym px ∙ ap (λ (c : Content). c.prev_hash) same ∙ py)
        | no other ↦ inr (content x, content y, other, sym hx ∙ heads ∙ hy)
      ]
    ]

-- Two logs of one length that both verify and end in one hash hold the same entries, in number,
-- time, type, payload and link, in the same order: otherwise two different entries with the same
-- SHA-256 hash are at hand.
pub verify-binds :
    (k : AuditKeys) (xs ys : List AuditEntry)
    → verify k xs ≡ valid
    → verify k ys ≡ valid
    → length xs ≡ length ys
    → last_hash genesis xs ≡ last_hash genesis ys
    → (map content xs ≡ map content ys) ⊎ Collision k
unfolding verify
verify-binds k xs ys vx vy n h = elim (verify_from-inject k genesis genesis xs ys vx vy n h) [
  | inl (same, _) ↦ inl same
  | inr found ↦ inr found
]
