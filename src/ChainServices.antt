-- ===== src/ChainServices.antt =====
-- chains/services/core/chain-service.factory.ts: the registry of chain services. `make` is the injector
-- of NestJS, which is not under src: it gives the instance of a class, nothing, or throws. A call that
-- throws gives `none`. An instance stands as a value under the name of each chain; that the injector
-- gives one shared object to a main net and its test nets is not modelled, and no method of an
-- instance changes it here.
pub mod Available
pub mod Discovery
pub mod Marked
pub mod Tests
use onekey_balance_kit.Base.{
  Bool, ◌||◌, Option, none, some, List, [], ◌∷◌, ◌++◌, Text, to_lower, if◌then◌else◌, or_else, Map,
  get, set, has, map, any, text_beq, keep_if, not,
}
use onekey_balance_kit.Cache.{Reply, returned, threw}
use onekey_balance_kit.Chains.{value, coin_symbol_to_chain_map}

-- A service, or the proxy of one that is bound to a provider.
pub data ChainService (V : Type 0) : Type 0 where
  base : V → ChainService V
  proxy : ChainService V → Text → ChainService V

pub record ChainServiceFactory (C V : Type 0) : Type 0 where
  pub chain_services : Map (ChainService V)
  pub chain_service_types : Map C
  pub provider_specific_services : Map (Map (ChainService V))

unfoldable pub normalize_chain_input : Text → Text
normalize_chain_input input = elim (get (to_lower input) coin_symbol_to_chain_map) [
  | none ↦ to_lower input
  | some chain ↦ to_lower (value chain)
]

-- `getDefaultProvider`, given whether a class is aware of providers and its own default.
unfoldable pub get_default_provider :
    {V : Type 0} → (V → Option Text) → ChainService V → Option Text
get_default_provider own (base v) = own v
get_default_provider own (proxy s p) = elim (get_default_provider own s) [
  | none ↦ none
  | some _ ↦ some p
]

module _ {C V : Type 0} where
  unfoldable pub register_chain_service_type :
      Text → C → ChainServiceFactory C V → ChainServiceFactory C V
  register_chain_service_type name c s = record s {
    chain_service_types = set (to_lower name) c s.chain_service_types;
  }

  unfoldable pub register_chain_service :
      Text → ChainService V → ChainServiceFactory C V → ChainServiceFactory C V
  register_chain_service name v s = record s {
    chain_services = set (to_lower name) v s.chain_services;
  }

  unfoldable pub is_chain_available : Text → ChainServiceFactory C V → Bool
  is_chain_available input s =
      let name = normalize_chain_input input in
      has name s.chain_services || has name s.chain_service_types

  -- `createChainServiceInstance`.
  unfoldable pub create_chain_service_instance :
      (C → Reply (Option V)) → Text → ChainServiceFactory C V → Option (ChainService V)
  create_chain_service_instance make name s = elim (get name s.chain_service_types) [
    | none ↦ none
    | some c ↦ elim (make c) [
      | threw ↦ none
      | returned none ↦ none
      | returned (some v) ↦ some (base v)
    ]
  ]

  unfoldable pub get_chain_service :
      (C → Reply (Option V))
      → Text
      → ChainServiceFactory C V
      → Option (ChainService V) × ChainServiceFactory C V
  unfolding create_chain_service_instance
  get_chain_service make input s =
      let name = normalize_chain_input input in
      elim (get name s.chain_services) [
        | some v ↦ (some v, s)
        | none ↦ elim (create_chain_service_instance make name s) [
          | none ↦ (none, s)
          | some v ↦ (some v, record s { chain_services = set name v s.chain_services })
        ]
      ]

  abbrev pub specific : Text → Text → ChainServiceFactory C V → Option (ChainService V)
  specific name provider s = elim (get name s.provider_specific_services) [
    | none ↦ none
    | some m ↦ get provider m
  ]

  abbrev pub store_specific :
      Text → Text → ChainService V → ChainServiceFactory C V → ChainServiceFactory C V
  store_specific name provider v s = record s {
    provider_specific_services =
        set name (set provider v (or_else (get name s.provider_specific_services) []))
          s.provider_specific_services;
  }

  unfoldable pub get_chain_service_with_provider :
      (C → Reply (Option V))
      → Text
      → Text
      → ChainServiceFactory C V
      → Option (ChainService V) × ChainServiceFactory C V
  unfolding get_chain_service
  get_chain_service_with_provider make input provider s =
      let name = normalize_chain_input input in
      elim (specific name provider s) [
        | some v ↦ (some v, s)
        | none ↦
            let (found, s') = get_chain_service make name s in
            elim found [
              | none ↦ (none, s')
              | some v ↦
                  (some (proxy v provider), store_specific name provider (proxy v provider) s')
            ]
      ]

-- `getAvailableChains`: the names of both maps, each once.
abbrev pub names {ℓ} : {A : Type ℓ} → Map A → List Text
names [] = []
names ((name, _) ∷ m) = name ∷ names m

unfoldable pub get_available_chains : {C V : Type 0} → ChainServiceFactory C V → List Text
get_available_chains s =
    names s.chain_services
    ++ keep_if (λ name. not (has name s.chain_services)) (names s.chain_service_types)
