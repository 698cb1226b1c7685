-- ===== src/ProviderFactory/Tests.antt =====
-- The theorems on providers/provider.factory.ts at examples: class 0 serves two chains, class 1 one.
use onekey_balance_kit.Providers.{get_default_provider_for_chain}
use onekey_balance_kit.Base.{
  set, ℕ, ◌+◌, ◌≡◌, refl, true, false, Option, none, some, List, [], ◌∷◌, Text, codes, arith,
  nat_beq, if◌then◌else◌, to_lower, get,
}
use onekey_balance_kit.Cache.{returned}
use onekey_balance_kit.Chains.{ethereum, polygon, value, of_value, coin_symbol_to_chain_map}
use onekey_balance_kit.ProviderFactory.Instances.{HasOneMulti, IsProvided}
use onekey_balance_kit.ProviderFactory.Runs.{ask_all, get_provider-IsProvided}
use onekey_balance_kit.ProviderFactory.{
  chain_supported_by_provider, get_default_provider_type, register_provider, get_provider_class,
  Supported, one, many, Nest, Factory, normalize_blockchain_type, register_providers, empty_factory,
  is_multi_chain_provider, get_provider, chosen_provider,
}

abbrev class_metadata : ℕ → Option Supported
class_metadata c =
    if nat_beq c 0
    then some (many (value ethereum ∷ value polygon ∷ []))
    else some (one (value ethereum))

abbrev pub nest : Nest ℕ ℕ
nest = record {
  metadata = class_metadata;
  make = λ c. returned (some (c + 100));
  env = λ key. none;
  testing = false;
}

abbrev registrations : List (Text × Text × ℕ)
registrations =
    (value ethereum, codes "alchemy", 0)
    ∷ (value ethereum, codes "quicknode", 1)
    ∷ (value polygon, codes "alchemy", 0)
    ∷ []

abbrev pub factory : Factory ℕ ℕ
factory = register_providers registrations empty_factory

is_zero : (c : ℕ) → is_multi_chain_provider nest c ≡ true → c ≡ 0
unfolding is_multi_chain_provider
is_zero c h = ground arith

factory-HasOneMulti : HasOneMulti nest factory
factory-HasOneMulti = record {
  same = λ p b b' c c' h h' m m'. omega (arith, is_zero c m, is_zero c' m');
}

abbrev asked : List (Text × Option Text)
asked = (codes "ETH", none) ∷ (codes "polygon", none) ∷ []

get_provider-IsProvided_example :
    IsProvided nest
      (normalize_blockchain_type (codes "ethereum"))
      (chosen_provider nest
        (normalize_blockchain_type (codes "ethereum"))
        (some (codes "quicknode")))
      (ask_all nest asked factory)
      101
unfolding get_provider get_provider_class get ask_all register_providers register_provider set
    normalize_blockchain_type of_value to_lower coin_symbol_to_chain_map chosen_provider
    get_default_provider_type get_default_provider_for_chain chain_supported_by_provider
    is_multi_chain_provider
get_provider-IsProvided_example =
    get_provider-IsProvided nest registrations asked (codes "ethereum") (some (codes "quicknode"))
      101 factory-HasOneMulti refl
