-- ===== src/KeyCustody/Rotation.antt =====
-- What rotation of the signing key in src/core/keyCustody.ts leaves of the log in src/core/audit.ts.
use agentworth.Prelude.{
  ℕ, ◌≡◌, refl, sym, ap, ◌∙◌, subst, String, Option, none, some, List, [], ◌∷◌, All, inl, inr,
  Bool-cases, str_eq, eq_iff, eq_refl, Option-cases,
}
use agentworth.Prelude.Map.{Map, get, set, get-set}
use agentworth.Audit.{AuditKeys, AuditEntry, AuditEventType, Payload, verify, verify_from, valid}
use agentworth.Audit.Chain.{verify-append, verify-resolve}
use agentworth.KeyCustody.{
  VersionedKey, Yield, yields, refuses, Answer, fetched, unreachable, Kms, fetch, kms_key_provider,
  opened, rotate, rotated, looked_up, resolved, signed, current, resolve, offline_key,
  provider_keys, Call, appends, rotates, resolves, call, calls,
}

-- Verification with the keys that the provider has, when it cannot reach its client.
abbrev pub offline : AuditKeys → Option String → Kms → AuditKeys
offline base legacy k = record base { resolve_key = offline_key legacy k }

cached :
    (legacy : Option String) (k : Kms) (v m : String)
    → get v k.cache ≡ some m
    → offline_key legacy k (some v) ≡ some m
unfolding offline_key resolve
cached legacy k v m h = rw h refl

offline_key-cached :
    (legacy : Option String) (k : Kms) (v s : String)
    → offline_key legacy k (some v) ≡ some s
    → get v k.cache ≡ some s
unfolding offline_key resolve fetch
offline_key-cached legacy k v s h = elim (Option-cases (get v k.cache)) [
  | inl absent ↦ cc (rw absent at h)
  | inr (m, found) ↦ found ∙ (rw found at h)
]

some-inj : {x y : String} → some x ≡ some y → x ≡ y
some-inj h = cc

yields-inj : {A : Type 0} {x y : A} → yields x ≡ yields y → x ≡ y
yields-inj h = cc

module _ (key_of : String → String) where
  -- A version names one key.
  abbrev pub Answered : Answer → Type 0
  Answered unreachable = Unit
  Answered (fetched key) = key.material ≡ key_of key.version

  abbrev pub AnsweredIn : Call → Type 0
  AnsweredIn (appends type payload ts) = Unit
  AnsweredIn (rotates answer) = Answered answer
  AnsweredIn (resolves version answer) = Answered answer

  -- The cache holds the keys that the versions name, and that of the current version.
  record Custody (k : Kms) : Type 0 where
    named : (v m : String) → get v k.cache ≡ some m → m ≡ key_of v
    has_current : get k.current_version k.cache ≡ some (key_of k.current_version)

  -- A cache that grew.
  Grown : Map String → Map String → Type 0
  Grown c d = (v m : String) → get v c ≡ some m → get v d ≡ some m

  record Fetched (c d : Map String) (key : VersionedKey) : Type 0 where
    keeps_named : ((v m : String) → get v d ≡ some m → m ≡ key_of v)
    holds : get key.version d ≡ some (key_of key.version)
    grown : Grown c d

  set-Fetched :
      (key : VersionedKey) (c : Map String)
      → key.material ≡ key_of key.version
      → ((v m : String) → get v c ≡ some m → m ≡ key_of v)
      → Fetched c (set key.version key.material c) key
  unfolding Grown
  set-Fetched key c a named = record {
    keeps_named = λ v m h. elim (Bool-cases (str_eq key.version v)) [
      | inl same ↦
          some-inj (sym (rw (get-set key.version v key.material c, same) at h))
          ∙ a
          ∙ ap key_of ((eq_iff key.version v).0 same)
      | inr other ↦ named v m (rw (get-set key.version v key.material c, other) at h)
    ];
    holds = rw (get-set key.version key.version key.material c, eq_refl) (ap some a);
    grown = λ v m h. elim (Bool-cases (str_eq key.version v)) [
      | inl same ↦
          let e = (eq_iff key.version v).0 same in
          rw (get-set key.version v key.material c, same)
            (ap some (a ∙ ap key_of e ∙ sym (named v m h)))
      | inr other ↦ rw (get-set key.version v key.material c, other) h
    ];
  }

  fetch-Fetched :
      (answer : Answer) (c d : Map String) (key : VersionedKey)
      → Answered answer
      → ((v m : String) → get v c ≡ some m → m ≡ key_of v)
      → fetch answer c ≡ yields (d, key)
      → Fetched c d key
  unfolding fetch
  fetch-Fetched unreachable c d key a named h = cc
  fetch-Fetched (fetched key') c d key a named h = elim (Bool-cases (str_eq key'.material "")) [
    | inl empty ↦ cc
    | inr other ↦
        subst (λ (p : Map String × VersionedKey). Fetched c p.0 p.1) (yields-inj (rw other at h))
          (set-Fetched key' c a named)
  ]

  -- What a call leaves of the provider.
  record Kept (k k' : Kms) : Type 0 where
    custody : Custody k'
    more : Grown k.cache k'.cache

  unchanged : (k : Kms) → Custody k → Kept k k
  unfolding Grown
  unchanged k c = record { custody = c; more = λ v m h. h }

  rotated-Kept :
      (k : Kms) (o : Yield (Map String × VersionedKey)) (answer : Answer)
      → fetch answer k.cache ≡ o
      → Answered answer
      → Custody k
      → Kept k (rotated k o).0
  rotated-Kept k (refuses e) answer h a c = unchanged k c
  rotated-Kept k (yields (d, key)) answer h a c =
      let f = fetch-Fetched answer k.cache d key a c.named h in
      record { custody = record { named = f.keeps_named; has_current = f.holds }; more = f.grown }

  looked_up-Kept :
      (k : Kms) (o : Yield (Map String × VersionedKey)) (answer : Answer)
      → fetch answer k.cache ≡ o
      → Answered answer
      → Custody k
      → Kept k (looked_up k o).0
  unfolding Grown
  looked_up-Kept k (refuses e) answer h a c = unchanged k c
  looked_up-Kept k (yields (d, key)) answer h a c =
      let f = fetch-Fetched answer k.cache d key a c.named h in
      record {
        custody = record {
          named = f.keeps_named;
          has_current = f.grown k.current_version (key_of k.current_version) c.has_current;
        };
        more = f.grown;
      }

  resolved-Kept :
      (k : Kms) (version : String) (answer : Answer) (o : Option String)
      → Answered answer
      → Custody k
      → Kept k (resolved k version answer o).0
  resolved-Kept k version answer none a c = looked_up-Kept k _ answer refl a c
  resolved-Kept k version answer (some m) a c = unchanged k c

  module _ (base : AuditKeys) (legacy : Option String) where
    offline_key-grown :
        (k k' : Kms) (o : Option String) (s : String)
        → Grown k.cache k'.cache
        → offline_key legacy k o ≡ some s
        → offline_key legacy k' o ≡ some s
    unfolding Grown
    offline_key-grown k k' none s g h = unfold offline_key in h
    offline_key-grown k k' (some v) s g h =
        cached legacy k' v s (g v s (offline_key-cached legacy k v s h))

    -- The provider and the log in step.
    record Verified (s : Kms × List AuditEntry) : Type 0 where
      custody : Custody s.0
      verifies : verify (offline base legacy s.0) s.1 ≡ valid

    Kept-Verified :
        (k k' : Kms) (log : List AuditEntry)
        → Kept k k'
        → verify (offline base legacy k) log ≡ valid
        → Verified (k', log)
    Kept-Verified k k' log kept v = record {
      custody = kept.custody;
      verifies =
          verify-resolve (offline base legacy k) base.current_key base.current_version
            (offline_key legacy k') (λ o s h. offline_key-grown k k' o s kept.more h) log v;
    }

    append-Verified :
        (k : Kms) (log : List AuditEntry) (type : AuditEventType) (payload : Payload) (ts : ℕ)
        → Verified (k, log)
        → Verified (k, signed base legacy k (current k) log type payload ts)
    unfolding current
    append-Verified k log type payload ts s =
        let key : VersionedKey = record {
          version = k.current_version;
          material = key_of k.current_version;
        } in
        let c = s.custody in
        let keys = provider_keys base legacy k key in
        let resolves = cached legacy k k.current_version (key_of k.current_version) c.has_current in
        let before =
          verify-resolve (offline base legacy k) key.material (some key.version)
            (offline_key legacy k) (λ o s h. h) log s.verifies in
        rw c.has_current (record {
          custody = c;
          verifies =
              verify-resolve keys base.current_key base.current_version (offline_key legacy k)
                (λ o s h. h) _ (verify-append keys log type payload ts resolves before);
        })

    call-Verified :
        (k : Kms) (log : List AuditEntry) (c : Call)
        → AnsweredIn c
        → Verified (k, log)
        → Verified (call base legacy (k, log) c)
    unfolding call rotate resolve
    call-Verified k log (appends type payload ts) a s = append-Verified k log type payload ts s
    call-Verified k log (rotates answer) a s =
        Kept-Verified k _ log (rotated-Kept k _ answer refl a s.custody) s.verifies
    call-Verified k log (resolves version answer) a s =
        Kept-Verified k _ log (resolved-Kept k version answer _ a s.custody) s.verifies

    calls-Verified :
        (cs : List Call) (k : Kms) (log : List AuditEntry)
        → All AnsweredIn cs
        → Verified (k, log)
        → Verified (calls base legacy (k, log) cs)
    unfolding calls
    calls-Verified [] k log a s = s
    calls-Verified (c ∷ cs) k log (ac, a) s = calls-Verified cs _ _ a (call-Verified k log c ac s)

    opened-Custody :
        (o : Yield (Map String × VersionedKey)) (answer : Answer) (k : Kms)
        → fetch answer [] ≡ o
        → Answered answer
        → opened o ≡ yields k
        → Custody k
    unfolding get
    opened-Custody (refuses e) answer k f a h = cc
    opened-Custody (yields (d, key)) answer k f a h =
        let new = fetch-Fetched answer [] d key a (λ v m h. cc) f in
        subst Custody (yields-inj h) (record { named = new.keeps_named; has_current = new.holds })

    opened_by :
        (answer : Answer) (key_id : String) (k : Kms)
        → kms_key_provider (some answer) key_id ≡ yields k
        → opened (fetch answer []) ≡ yields k
    unfolding kms_key_provider
    opened_by answer key_id k h = elim (Bool-cases (str_eq key_id "")) [
      | inl empty ↦ cc
      | inr other ↦ rw other at h
    ]

    -- A log that is signed with the current key of a provider, which is rotated in between and may
    -- look older versions up, verifies at every moment with the keys that the provider has by then,
    -- even when the key service cannot be reached any more: a rotation breaks no entry that was
    -- signed before it. A version names one key; calls that the service does not answer, or answers
    -- with an empty key, are among those allowed.
    pub calls-verify :
        (answer : Answer) (key_id : String) (k : Kms) (cs : List Call)
        → kms_key_provider (some answer) key_id ≡ yields k
        → Answered answer
        → All AnsweredIn cs
        → let (k', log) = calls base legacy (k, []) cs in
          verify (offline base legacy k') log ≡ valid
    unfolding verify verify_from
    calls-verify answer key_id k cs h a rest =
        let made : opened (fetch answer []) ≡ yields k = opened_by answer key_id k h in
        (calls-Verified cs k [] rest
          (record { custody = opened-Custody _ answer k refl a made; verifies = refl })).verifies
