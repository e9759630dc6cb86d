-- ===== src/KeyCustody.antt =====
-- src/core/keyCustody.ts: where the key that signs the audit log comes from, and how src/core/audit.ts
-- takes it. What the key service answers to a call is an argument of the call.
pub mod Rotation
mod Tests
use agentworth.Prelude.{
  ℕ, String, Bool, true, false, Option, none, some, List, [], ◌∷◌, ◌++◌, str_eq, if◌then◌else◌,
  get_or, is_some,
}
use agentworth.Prelude.Map.{Map, get, set}
use agentworth.Audit.{AuditKeys, AuditEntry, AuditEventType, Payload, append}

pub record VersionedKey : Type 0 where
  pub version : String
  pub material : String

-- What the providers throw.
pub data KeyError : Type 0 where
  unset no_client no_key_id unreachable_client : KeyError
  empty_material unknown_version : String → KeyError
  missing_material empty_key : KeyError

pub data Yield {ℓ} (A : Type ℓ) : Type ℓ where
  yields : A → Yield A
  refuses : KeyError → Yield A

-- `KmsClient.getKey`: a key under the version that was fetched, or a throw.
pub data Answer : Type 0 where
  fetched : VersionedKey → Answer
  unreachable : Answer

-- EnvKeyProvider: the variable and the version label; `staticKeyProvider`.
unfoldable pub env_key_provider : Option String → Option String → Yield VersionedKey
env_key_provider none label = refuses unset
env_key_provider (some raw) label =
    if str_eq raw ""
    then refuses unset
    else yields (record { version = get_or label "env-1"; material = raw })

unfoldable pub static_key_provider : String → Option String → Yield VersionedKey
static_key_provider key label =
    if str_eq key ""
    then refuses empty_key
    else yields (record { version = get_or label "static-1"; material = key })

-- `resolve` of a provider with one fixed key.
unfoldable pub resolve_fixed : VersionedKey → String → Yield VersionedKey
resolve_fixed key version =
    if str_eq version key.version then yields key else refuses (unknown_version version)

-- KmsKeyProvider: the cache and the current version.
pub record Kms : Type 0 where
  pub cache : Map String
  pub current_version : String

unfoldable pub fetch : Answer → Map String → Yield (Map String × VersionedKey)
fetch unreachable cache = refuses unreachable_client
fetch (fetched key) cache =
    if str_eq key.material ""
    then refuses (empty_material key.version)
    else yields (set key.version key.material cache, key)

abbrev pub opened : Yield (Map String × VersionedKey) → Yield Kms
opened (refuses e) = refuses e
opened (yields (cache, key)) = yields (record { cache = cache; current_version = key.version })

-- The constructor, with the answer to its call of a client, if there is one.
unfoldable pub kms_key_provider : Option Answer → String → Yield Kms
kms_key_provider none key_id = refuses no_client
kms_key_provider (some answer) key_id =
    if str_eq key_id "" then refuses no_key_id else opened (fetch answer [])

-- A call returns the provider, changed or not, and what it yields.
abbrev pub rotated : Kms → Yield (Map String × VersionedKey) → Kms × Yield String
rotated k (refuses e) = (k, refuses e)
rotated k (yields (cache, key)) =
    (record { cache = cache; current_version = key.version }, yields key.version)

unfoldable pub rotate : Answer → Kms → Kms × Yield String
rotate answer k = rotated k (fetch answer k.cache)

abbrev pub held : String → Option String → Yield VersionedKey
held version none = refuses missing_material
held version (some material) = yields (record { version = version; material = material })

unfoldable pub current : Kms → Yield VersionedKey
current k = held k.current_version (get k.current_version k.cache)

abbrev pub looked_up : Kms → Yield (Map String × VersionedKey) → Kms × Yield VersionedKey
looked_up k (refuses e) = (k, refuses e)
looked_up k (yields (cache, key)) = (record k { cache = cache }, yields key)

abbrev pub resolved : Kms → String → Answer → Option String → Kms × Yield VersionedKey
resolved k version answer (some material) =
    (k, yields (record { version = version; material = material }))
resolved k version answer none = looked_up k (fetch answer k.cache)

unfoldable pub resolve : Kms → String → Answer → Kms × Yield VersionedKey
resolve k version answer = resolved k version answer (get version k.cache)

-- KeyRing: `new KeyRing(keys)`, `add`, `has`, `resolve`.
abbrev pub ring_add : VersionedKey → Map String → Map String
ring_add key ring = set key.version key.material ring

unfoldable pub key_ring : List VersionedKey → Map String → Map String
key_ring [] ring = ring
key_ring (key ∷ keys) ring = key_ring keys (ring_add key ring)

abbrev pub ring_has : Map String → String → Bool
ring_has ring version = is_some (get version ring)

unfoldable pub ring_resolve : Map String → String → Yield VersionedKey
ring_resolve ring version = elim (get version ring) [
  | none ↦ refuses (unknown_version version)
  | some material ↦ yields (record { version = version; material = material })
]

-- keyRingProvider: `resolve` over the current and the historical keys.
unfoldable pub ring_provider_resolve :
    VersionedKey → List VersionedKey → String → Yield VersionedKey
ring_provider_resolve key historical version = ring_resolve (key_ring (key ∷ historical) []) version

-- AuditLog over a provider: the key of a version while the client answers nothing, or the legacy key.
abbrev pub material_of : Yield VersionedKey → Option String
material_of (refuses e) = none
material_of (yields key) = some key.material

unfoldable pub offline_key : Option String → Kms → Option String → Option String
offline_key legacy k none = legacy
offline_key legacy k (some version) = material_of (resolve k version unreachable).1

-- The functions that sign with a key of the provider and verify offline.
abbrev pub provider_keys : AuditKeys → Option String → Kms → VersionedKey → AuditKeys
provider_keys base legacy k key = record base {
  current_key = key.material;
  current_version = some key.version;
  resolve_key = offline_key legacy k;
}

-- What is done with a log and its provider, call by call: an append, which throws and appends nothing
-- when there is no current key, a rotation, and a look-up of an older version.
pub data Call : Type 0 where
  appends : AuditEventType → Payload → ℕ → Call
  rotates : Answer → Call
  resolves : String → Answer → Call

abbrev pub signed :
    AuditKeys
    → Option String
    → Kms
    → Yield VersionedKey
    → List AuditEntry
    → AuditEventType
    → Payload
    → ℕ
    → List AuditEntry
signed base legacy k (refuses e) log type payload ts = log
signed base legacy k (yields key) log type payload ts =
    append (provider_keys base legacy k key) log type payload ts

unfoldable pub call :
    AuditKeys → Option String → Kms × List AuditEntry → Call → Kms × List AuditEntry
call base legacy (k, log) (appends type payload ts) =
    (k, signed base legacy k (current k) log type payload ts)
call base legacy (k, log) (rotates answer) = ((rotate answer k).0, log)
call base legacy (k, log) (resolves version answer) = ((resolve k version answer).0, log)

unfoldable pub calls :
    AuditKeys → Option String → Kms × List AuditEntry → List Call → Kms × List AuditEntry
calls base legacy s [] = s
calls base legacy s (c ∷ rest) = calls base legacy (call base legacy s c) rest
