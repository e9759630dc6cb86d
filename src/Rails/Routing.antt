-- ===== src/Rails/Routing.antt =====
-- src/rails/registry.ts: which provider serves a rail kind.
use agentworth.Prelude.{
  ◌≡◌, refl, ◌∙◌, String, Option, none, some, List, [], ◌∷◌, ◌⊎◌, inl, inr, arith, Option-cases,
}
use agentworth.Types.{RailKind}
use agentworth.Rails.{Provider, Registry, by_id, get_provider, of_kind, routed, sole}

sole-some : (ps : List Provider) (p : Provider) → sole ps ≡ some p → ps ≡ p ∷ []
sole-some [] p h = cc
sole-some (q ∷ []) p h = ground arith
sole-some (q ∷ r ∷ ps) p h = cc

routed-some :
    (r : Registry) (o : Option String) (p : Provider)
    → routed r o ≡ some p
    → (id : String) × (o ≡ some id) × (by_id r id ≡ some p)
routed-some r none p h = cc
routed-some r (some id) p h = (id, refl, h)

-- A provider that serves a rail kind is the one that the operator's route for the kind names, or
-- the only one that is registered for the kind.
pub get_provider-some :
    (r : Registry) (rail : RailKind) (p : Provider)
    → get_provider r rail ≡ some p
    → ((id : String) × (r.routes rail ≡ some id) × (by_id r id ≡ some p))
      ⊎ (of_kind rail r.providers ≡ p ∷ [])
unfolding get_provider
get_provider-some r rail p h = elim (Option-cases (routed r (r.routes rail))) [
  | inr (q, e) ↦ inl (routed-some r (r.routes rail) p (e ∙ (rw (e, get_provider) at h)))
  | inl e ↦ inr (sole-some (of_kind rail r.providers) p (rw (e, get_provider) at h))
]
