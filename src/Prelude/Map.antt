-- ===== src/Prelude/Map.antt =====
-- The source's `Map<string, V>`: entries in insertion order; `set` on a present key keeps its place.
use Prim.Native.String.{String}
use mathlib.Core.Path.{◌≡◌, refl, sym, ◌∙◌}
use mathlib.Core.Logic.{inl, inr}
use mathlib.Core.Option.{Option, none, some}
use mathlib.Core.List.{List, [], ◌∷◌}
use native.Mathlib.Omega.{arith}
use text.Mathlib.Text.{◌==◌ as str_eq}
use text.Mathlib.TextEquality.{eq_iff}
use agentworth.Prelude.Tests.{if◌then◌else◌, Bool-cases}
use agentworth.Prelude.Lists.{In}

abbrev pub Map {ℓ} : Type ℓ → Type ℓ
Map V = List (String × V)

module _ {ℓ} {V : Type ℓ} where
  unfoldable pub get : String → Map V → Option V
  get k [] = none
  get k ((j, v) ∷ m) = let rest = get k m in if str_eq j k then some v else rest

  unfoldable pub set : String → V → Map V → Map V
  set k v [] = (k, v) ∷ []
  set k v ((j, w) ∷ m) = let rest = set k v m in if str_eq j k then (j, v) ∷ m else (j, w) ∷ rest

  abbrev pub values : Map V → List V
  values [] = []
  values ((k, v) ∷ m) = v ∷ values m

  pub get-set :
      (k j : String) (v : V) (m : Map V)
      → get j (set k v m) ≡ (if str_eq k j then some v else get j m)
  unfolding get set
  get-set k j v [] = refl
  get-set k j v ((i, w) ∷ m) = ground (arith, eq_iff k j, eq_iff i k, eq_iff i j, get-set k j v m)

module _ {V : Type 0} where
  pub In-values-get : (k : String) (m : Map V) (v : V) → get k m ≡ some v → In v (values m)
  unfolding get
  In-values-get k [] v h = cc
  In-values-get k ((j, w) ∷ m) v h = ground (arith, In-values-get k m v)

-- Every entry stands under the name of its value, and no key stands twice.
module _ {V : Type 0} (name : V → String) where
  abbrev pub Keyed : Map V → Type 0
  Keyed [] = Unit
  Keyed ((k, v) ∷ m) = (name v ≡ k) × (get k m ≡ none) × Keyed m

  pub Keyed-set : (k : String) (v : V) (m : Map V) → name v ≡ k → Keyed m → Keyed (set k v m)
  unfolding set get
  Keyed-set k v [] e h = (e, refl, tt)
  Keyed-set k v ((j, w) ∷ m) e h = elim (Bool-cases (str_eq j k)) [
    | inl same ↦ rw same (e ∙ sym ((eq_iff j k).0 same), h.1, h.2)
    | inr other ↦
        rw other
          (h.0, ground (arith, get-set k j v m, eq_iff k j, eq_iff j k), Keyed-set k v m e h.2)
  ]

  pub Keyed-get : (m : Map V) (v : V) → Keyed m → In v (values m) → get (name v) m ≡ some v
  unfolding get
  Keyed-get [] v h i = absurd i
  Keyed-get ((j, w) ∷ m) v h (inl e) = ground (arith, eq_iff j (name v), h.0)
  Keyed-get ((j, w) ∷ m) v h (inr i) =
      let later = Keyed-get m v h.2 i in ground (arith, eq_iff j (name v))

unfoldable pub String_discrete : Discrete String
String_discrete s t = elim (Bool-cases (str_eq s t)) [
  | inl same ↦ yes ((eq_iff s t).0 same)
  | inr other ↦ no (λ e. cc (other, (eq_iff s t).1 e))
]
