-- ===== src/ProviderFactory.antt =====
-- providers/provider.factory.ts: the registry of providers and their cached instances. The injector of
-- NestJS, the metadata of the decorators and the configuration are not under src: they are `Nest`,
-- whose `make` gives the one instance of a class, nothing, or throws.
pub mod Names
pub mod Instances
pub mod Coherence
pub mod Runs
pub mod Tests
use onekey_balance_kit.Base.{
  ℕ, Bool, true, false, ◌&&◌, Option, none, some, List, [], ◌∷◌, ◌++◌, Text, codes, truthy,
  text_beq, to_lower, to_upper, if◌then◌else◌, or_else, any, ltb, length, Map, get, set, is_some,
}
use onekey_balance_kit.Cache.{Reply, returned, threw}
use onekey_balance_kit.Chains.{
  ChainName, ethereum, solana, value, of_value, coin_symbol_to_chain_map,
  get_chain_name_by_chain_id,
}
use onekey_balance_kit.Providers.{provider_value, get_default_provider_for_chain}

-- `blockchainType` of the metadata: one name or an array.
pub data Supported : Type 0 where
  one : Text → Supported
  many : List Text → Supported

pub record Nest (C I : Type 0) : Type 0 where
  pub metadata : C → Option Supported
  pub make : C → Reply (Option I)
  pub env : Text → Option Text
  pub testing : Bool

pub record Factory (C I : Type 0) : Type 0 where
  pub providers : Map (Map C)
  pub instances : Map (Map I)
  pub multi_chain_providers : Map I

pub data Failure : Type 0 where
  no_provider not_supported not_instantiated nest_error no_chain : Failure

pub data Outcome (I : Type 0) : Type 0 where
  found : I → Outcome I
  failed : Failure → Outcome I

abbrev pub inner {ℓ} : {V : Type ℓ} → Text → Text → Map (Map V) → Option V
inner k j m = elim (get k m) [ none ↦ none | some n ↦ get j n ]

abbrev pub set_inner {ℓ} : {V : Type ℓ} → Text → Text → V → Map (Map V) → Map (Map V)
set_inner k j v m = set k (set j v (or_else (get k m) [])) m

unfoldable pub normalize_blockchain_type : Text → Text
normalize_blockchain_type input =
    let name = to_lower input in
    if is_some (of_value name)
    then name
    else elim (get name coin_symbol_to_chain_map) [ none ↦ name | some chain ↦ value chain ]

module _ {C I : Type 0} where
  unfoldable pub register_provider : Text → Text → C → Factory C I → Factory C I
  register_provider blockchain provider c s = record s {
    providers = set_inner blockchain provider c s.providers;
  }

  unfoldable pub get_provider_class : Text → Text → Factory C I → Option C
  get_provider_class blockchain provider s = inner blockchain provider s.providers

  abbrev pub empty_factory : Factory C I
  empty_factory = record { providers = []; instances = []; multi_chain_providers = [] }

  -- The constructor and `onModuleInit`: the given and the discovered providers, in order.
  unfoldable pub register_providers : List (Text × Text × C) → Factory C I → Factory C I
  register_providers [] s = s
  register_providers ((blockchain, provider, c) ∷ rest) s =
      register_providers rest (register_provider blockchain provider c s)

module _ {C I : Type 0} (nest : Nest C I) where
  unfoldable pub get_default_provider_type : Text → Text
  get_default_provider_type blockchain =
      let mapped : Text = elim (of_value blockchain) [
        | none ↦ codes "alchemy"
        | some chain ↦ provider_value (get_default_provider_for_chain chain)
      ] in
      elim (nest.env (to_upper blockchain ++ codes "_DEFAULT_PROVIDER")) [
        | none ↦ mapped
        | some p ↦ if truthy p then p else mapped
      ]

  unfoldable pub is_multi_chain_provider : C → Bool
  is_multi_chain_provider c = elim (nest.metadata c) [
    | none ↦ false
    | some (one t) ↦ false
    | some (many ts) ↦ ltb 1 (length ts)
  ]

  unfoldable pub chain_supported_by_provider : Text → C → Bool
  chain_supported_by_provider blockchain c = elim (nest.metadata c) [
    | none ↦ nest.testing
    | some (one t) ↦ text_beq t blockchain
    | some (many ts) ↦ any (λ t. text_beq t blockchain) ts
  ]

  -- A new instance, and the state that stores it.
  unfoldable pub instantiate : C → (I → Factory C I) → Factory C I → Outcome I × Factory C I
  instantiate c store s = elim (nest.make c) [
    | threw ↦ (failed nest_error, s)
    | returned none ↦ (failed not_instantiated, s)
    | returned (some i) ↦ (found i, store i)
  ]

  unfoldable pub get_multi : Text → C → Factory C I → Outcome I × Factory C I
  unfolding instantiate
  get_multi provider c s = elim (get provider s.multi_chain_providers) [
    | some i ↦ (found i, s)
    | none ↦
        instantiate c
          (λ i. record s { multi_chain_providers = set provider i s.multi_chain_providers }) s
  ]

  unfoldable pub get_single : Text → Text → C → Factory C I → Outcome I × Factory C I
  unfolding instantiate
  get_single blockchain provider c s = elim (inner blockchain provider s.instances) [
    | some i ↦ (found i, s)
    | none ↦
        instantiate c (λ i. record s { instances = set_inner blockchain provider i s.instances }) s
  ]

  -- `providerType || this.getDefaultProviderType(blockchain)`.
  unfoldable pub chosen_provider : Text → Option Text → Text
  chosen_provider blockchain none = get_default_provider_type blockchain
  chosen_provider blockchain (some p) = if truthy p then p else get_default_provider_type blockchain

  -- `getProvider` once the names are resolved.
  unfoldable pub get_resolved : Text → Text → Factory C I → Outcome I × Factory C I
  unfolding get_multi get_single
  get_resolved blockchain provider s = elim (get_provider_class blockchain provider s) [
    | none ↦ (failed no_provider, s)
    | some c ↦
        if chain_supported_by_provider blockchain c
        then (if is_multi_chain_provider c
            then get_multi provider c s
            else get_single blockchain provider c s)
        else (failed not_supported, s)
  ]

  unfoldable pub get_provider : Text → Option Text → Factory C I → Outcome I × Factory C I
  unfolding get_resolved
  get_provider input provider s =
      let blockchain = normalize_blockchain_type input in
      get_resolved blockchain (chosen_provider blockchain provider) s

  unfoldable pub get_ethereum_provider : Option Text → Factory C I → Outcome I × Factory C I
  get_ethereum_provider provider s = get_provider (value ethereum) provider s

  unfoldable pub get_solana_provider : Option Text → Factory C I → Outcome I × Factory C I
  get_solana_provider provider s = get_provider (value solana) provider s

  unfoldable pub get_evm_provider : ℕ → Option Text → Factory C I → Outcome I × Factory C I
  get_evm_provider chain_id provider s = elim (get_chain_name_by_chain_id chain_id) [
    | none ↦ (failed no_chain, s)
    | some chain ↦ get_provider (value chain) provider s
  ]

abbrev pub row {ℓ} : {V : Type ℓ} → Text → Map V → List (Text × Text)
row blockchain [] = []
row blockchain ((provider, c) ∷ m) = (blockchain, provider) ∷ row blockchain m

abbrev pub rows {ℓ} : {V : Type ℓ} → Map (Map V) → List (Text × Text)
rows [] = []
rows ((blockchain, m) ∷ rest) = row blockchain m ++ rows rest

unfoldable pub list_providers : {C I : Type 0} → Factory C I → List (Text × Text)
list_providers s = rows s.providers
