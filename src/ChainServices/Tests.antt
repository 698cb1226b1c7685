-- ===== src/ChainServices/Tests.antt =====
-- Runs and the theorem on chains/services/core/chain-service.factory.ts at an example.
use onekey_balance_kit.Base.{
  true, false, ◌||◌, List, any, to_lower, get, set, ℕ, ◌≡◌, refl, Option, some, [], ◌∷◌, codes,
}
use onekey_balance_kit.Cache.{Reply, returned}
use onekey_balance_kit.ChainServices.Discovery.{
  ChainMeta, Wrapper, discover_chain_services, start_factory,
}
use onekey_balance_kit.ChainServices.Marked.{marks, is_chain_available-start_factory}
use onekey_balance_kit.ChainServices.Available.{Injects}
use onekey_balance_kit.ChainServices.{
  ChainServiceFactory, register_chain_service_type, get_available_chains, is_chain_available,
  normalize_chain_input,
}

abbrev make : ℕ → Reply (Option ℕ)
make c = returned (some c)

make-Injects : Injects make
make-Injects = record { instance_of = λ c. c; makes = λ c. refl }

abbrev factory : ChainServiceFactory ℕ ℕ
factory =
    register_chain_service_type (codes "Ethereum") 7
      (record { chain_services = []; chain_service_types = []; provider_specific_services = [] })

available_run : get_available_chains factory ≡ codes "ethereum" ∷ []
unfolding get_available_chains register_chain_service_type set get to_lower
available_run = refl

-- Class 7 is marked with Ethereum and a test net; class 8 has no instance.
abbrev meta : ℕ → Option ChainMeta
meta c = some (record { mainnet = codes "Ethereum"; testnets = codes "ethereum_sepolia" ∷ [] })

abbrev wrappers : List (Wrapper ℕ)
wrappers =
    record { has_instance = true; metatype = some 7 }
    ∷ record { has_instance = false; metatype = some 8 }
    ∷ []

is_chain_available-start_factory_example :
    is_chain_available (codes "ETH") (start_factory meta wrappers factory) ≡ (
      any (λ w. marks meta (normalize_chain_input (codes "ETH")) w) wrappers
      || is_chain_available (codes "ETH") factory)
is_chain_available-start_factory_example =
    is_chain_available-start_factory meta (codes "ETH") wrappers factory

started_run :
    get_available_chains (start_factory meta wrappers factory)
    ≡ codes "ethereum" ∷ codes "ethereum_sepolia" ∷ []
unfolding get_available_chains start_factory discover_chain_services register_chain_service_type set
    get to_lower
started_run = refl
