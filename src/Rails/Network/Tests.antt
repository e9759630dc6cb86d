-- ===== src/Rails/Network/Tests.antt =====
-- Runs of src/rails/networkRail.ts and src/core/credentialBroker.ts.
use agentworth.Prelude.{◌≡◌, refl, none, some, [], ◌∷◌}
use agentworth.Types.{card}
use agentworth.Store.{empty_store}
use agentworth.Rails.{get_provider}
use agentworth.Rails.Network.{
  create_visa_intelligent_commerce_rail, create_network_rail, store_credential, retrieve_credential,
}
use agentworth.Rails.Network.Unconfigured.{no_client, execute-Unconfigured}
use agentworth.Executor.{Deps, State}
use agentworth.Executor.Operations.{execute}
use agentworth.Executor.Settled.{Unsettled}
use agentworth.Examples.{shop, new_year, deps}

abbrev visa_only : Deps
visa_only = record deps {
  rails = record {
    providers = create_visa_intelligent_commerce_rail none ∷ [];
    routes = λ rail. none;
  };
}

abbrev before : State
before = record { store = empty_store; log = [] }

visa_served : get_provider visa_only.rails card ≡ some (create_visa_intelligent_commerce_rail none)
unfolding get_provider create_network_rail
visa_served = refl

execute-Unconfigured_example :
    Unsettled visa_only new_year shop none before (execute visa_only new_year shop none before)
execute-Unconfigured_example =
    execute-Unconfigured visa_only new_year shop none before
      (create_visa_intelligent_commerce_rail none) visa_served (no_client _ refl)

secret_of_stripe : retrieve_credential "stripe" (store_credential "stripe" "sk" []) ≡ some "sk"
unfolding retrieve_credential agentworth.Prelude.Map.get agentworth.Prelude.Map.set
secret_of_stripe = refl
