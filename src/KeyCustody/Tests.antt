-- ===== src/KeyCustody/Tests.antt =====
-- Runs of the key providers of src/core/keyCustody.ts.
use agentworth.Prelude.{◌≡◌, refl, String, none, some, List, [], ◌∷◌}
use agentworth.Prelude.Map.{get, set}
use agentworth.Audit.{mandate_revoked, revoked, verify, valid}
use agentworth.Examples.{toy_keys}
use agentworth.KeyCustody.{
  VersionedKey, yields, refuses, fetched, unreachable, Kms, fetch, kms_key_provider,
  env_key_provider, resolve_fixed, unset, unknown_version, ring_provider_resolve, key_ring,
  ring_resolve, Call, appends, rotates, resolves, calls,
}
use agentworth.KeyCustody.Rotation.{offline, calls-verify}

abbrev key : String → VersionedKey
key v = record { version = v; material = v }

abbrev first : Kms
first = record { cache = ("v1", "v1") ∷ []; current_version = "v1" }

-- An append, a failed and a good rotation, another append, and a look-up.
abbrev day : List Call
day =
    appends mandate_revoked (revoked "m1") 10
    ∷ rotates unreachable
    ∷ rotates (fetched (key "v2"))
    ∷ appends mandate_revoked (revoked "m2") 20
    ∷ resolves "v0" (fetched (key "v0"))
    ∷ []

unset_variable : env_key_provider (some "") none ≡ refuses unset
unfolding env_key_provider
unset_variable = refl

old_version : resolve_fixed (key "v2") "v1" ≡ refuses (unknown_version "v1")
unfolding resolve_fixed
old_version = refl

old_key : ring_provider_resolve (key "v2") (key "v1" ∷ []) "v1" ≡ yields (key "v1")
unfolding ring_provider_resolve key_ring ring_resolve get set
old_key = refl

opened_first : kms_key_provider (some (fetched (key "v1"))) "audit" ≡ yields first
unfolding kms_key_provider fetch set
opened_first = refl

calls-verify_example :
    let (k, log) = calls toy_keys none (first, []) day in
    verify (offline toy_keys none k) log ≡ valid
calls-verify_example =
    calls-verify (λ v. v) toy_keys none (fetched (key "v1")) "audit" first day opened_first refl
      (tt, (tt, (refl, (tt, (refl, tt)))))
