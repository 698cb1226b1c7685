-- ===== src/EvmChain/Tests.antt =====
-- The theorems on the EVM chain services at examples: a provider that knows one token.
use onekey_balance_kit.Base.{
  ℕ, ◌*◌, ◌≡◌, refl, true, none, some, [], ◌∷◌, codes, get, set, to_lower,
}
use onekey_balance_kit.Chains.{of_value, coin_symbol_to_chain_map, get_chain_name_by_chain_id}
use onekey_balance_kit.Providers.{get_default_provider_for_chain}
use onekey_balance_kit.ProviderFactory.{
  get_evm_provider, get_provider, get_provider_class, register_providers, register_provider,
  normalize_blockchain_type, chosen_provider, get_default_provider_type,
  chain_supported_by_provider, is_multi_chain_provider,
}
use onekey_balance_kit.EvmChain.{ask_provider, set_chain_id, get_chain_symbol, is_testnet}
use onekey_balance_kit.Cache.{returned}
use onekey_balance_kit.Chains.{ethereum, EvmChainInfo, chain_info_map, evm_chain_info_map}
use onekey_balance_kit.EvmChain.Overlapped.{run_begins, Begin, last_chain_id, finish_balances-last}
use onekey_balance_kit.EvmChain.Quotes.{Prices, zero_address}
use onekey_balance_kit.EvmChain.Requests.{IsAnswer, get_balances-IsAnswer}
use onekey_balance_kit.EvmChain.{
  EvmChainService, EvmBalances, EvmFungible, begin_balances, finish_balances, get_balances,
}
use onekey_balance_kit.ProviderApi.{BalancesResponse, ProviderApi}
use onekey_balance_kit.ProviderFactory.Tests.{nest, factory}

abbrev reply : BalancesResponse
reply = record {
  native_balance = codes "15";
  tokens = record { mint = codes "0xc"; token_metadata = none; balance = codes "7" } ∷ [];
  nfts = [];
  is_success = none;
  error_message = none;
}

abbrev api : ProviderApi ℕ
api = record { is_supported = λ i. true; get_balances = λ i address network chain. returned reply }

abbrev pub service : EvmChainService ℕ ℕ
service = record {
  evm_chain = ethereum;
  current_chain_id = 1;
  default_provider = some (codes "alchemy");
  factory = factory;
}

abbrev token : EvmFungible ℕ
token = record {
  mint = codes "0xc";
  symbol = codes "UNKNOWN";
  decimals = 18;
  balance = codes "7";
  usd = 0;
}

abbrev balances : ℕ → EvmBalances ℕ
balances chain_id = record {
  chain_id = chain_id;
  native_balance = record { symbol = codes "ETH"; decimals = 18; balance = codes "15"; usd = 0 };
  fungibles = token ∷ [];
  nfts = [];
  updated_at = 9;
}

abbrev ether_info : EvmChainInfo
ether_info = record { base = chain_info_map ethereum; symbol = codes "ETH"; decimals = 18 }

get_balances-IsAnswer_example :
    IsAnswer nest api (λ a. true) 0 ethereum (codes "0xa") (codes "ETH") (balances 1)
unfolding get_balances begin_balances ask_provider set_chain_id finish_balances get_chain_symbol
    is_testnet get_evm_provider get_chain_name_by_chain_id evm_chain_info_map get_provider
    get_provider_class get register_providers register_provider set normalize_blockchain_type
    of_value to_lower coin_symbol_to_chain_map chosen_provider get_default_provider_type
    get_default_provider_for_chain chain_supported_by_provider is_multi_chain_provider
get_balances-IsAnswer_example =
    get_balances-IsAnswer nest api (λ a. true) 0 ethereum ether_info (codes "0xa") none 9000 service
      (balances 1) refl refl refl

abbrev first : Begin
first = record { address = codes "0xa"; chain_id = some 1; provider_type = none }

abbrev second : Begin
second = record { address = codes "0xb"; chain_id = some 11155111; provider_type = none }

finish_balances-last_example :
    (r : EvmBalances ℕ) × (finish_balances 0
        (returned reply)
        9000
        (run_begins nest api (λ a. true) (first ∷ second ∷ []) service)
      ≡ returned r)
    × (r.chain_id ≡ last_chain_id (second ∷ []) 1)
finish_balances-last_example =
    finish_balances-last nest api (λ a. true) 0 (second ∷ []) first service reply 9000

abbrev prices : Prices ℕ
prices = record {
  zero_usd = 0;
  amount = λ price balance decimals. price * 3;
  get_prices = λ chain_id tokens. returned ((zero_address, 2) ∷ []);
}
