-- ===== src/Rails/Tests.antt =====
-- Runs of the rail registry.
use agentworth.Prelude.{◌≡◌, refl, none, [], ◌∷◌, false}
use agentworth.Types.{card}
use agentworth.Rails.{Provider, Registry, fake_rail, get_provider}
use agentworth.Examples.{names}

abbrev the_card : Provider
the_card = fake_rail names card (λ intent. false)

abbrev two_cards : Registry
two_cards = record { providers = the_card ∷ the_card ∷ []; routes = λ rail. none }

shared_card : get_provider two_cards card ≡ none
unfolding fake_rail get_provider
shared_card = refl
