-- ===== src/Balances/Tests.antt =====
-- The theorems on balances/services/balance.service.ts at examples: a chain service that knows one
-- balance, an empty database and a cache that is a map.
use onekey_balance_kit.ChainServices.{
  normalize_chain_input as service_chain_input, get_chain_service_with_provider,
}
use onekey_balance_kit.Db.{get_portfolio_snapshot}
use onekey_balance_kit.Base.{
  set, get, to_lower, ℕ, ◌≡◌, refl, true, Option, none, some, List, [], ◌∷◌, codes, Map,
}
use onekey_balance_kit.Balances.Again.{deliver_all, get_portfolio-again}
use onekey_balance_kit.Balances.{
  normalize_chain_input, LegacyToken, legacy, ChainApi, answered, BalanceService, get_portfolio,
  convert_legacy_balance_to_modern,
}
use onekey_balance_kit.Cache.{cache_get, Reply, returned, Manager}
use onekey_balance_kit.CacheMongo.{get_portfolio_data}
use onekey_balance_kit.Chains.{coin_symbol_to_chain_map, of_value, ethereum}
use onekey_balance_kit.Db.Store.{snapshot_store}
use onekey_balance_kit.Portfolio.{BalanceResponse}
use onekey_balance_kit.PortfolioCache.Tests.{map_manager, map_manager-Stores}
use onekey_balance_kit.Providers.{alchemy}

abbrev manager : Manager (Map (BalanceResponse ℕ)) (BalanceResponse ℕ)
manager = map_manager

abbrev balances : List LegacyToken
balances =
    record { symbol = codes "ETH"; balance = codes "7"; token_address = none }
    ∷ record { symbol = codes "USDC"; balance = codes "9"; token_address = some (codes "0xc") }
    ∷ []

abbrev api : ChainApi ℕ ℕ
api = record {
  is_valid_address = λ service address. true;
  is_balance_queryable = λ service. true;
  get_balances = λ service address chain_id provider. returned (legacy balances);
  get_chain_symbol = λ service. codes "ETH";
}

abbrev make : ℕ → Reply (Option ℕ)
make c = returned (some c)

abbrev idle : BalanceService ℕ ℕ (Map (BalanceResponse ℕ)) ℕ
idle = record {
  factory = record {
    chain_services = [];
    chain_service_types = (codes "ethereum", 3) ∷ [];
    provider_specific_services = [];
  };
  cached = [];
  emitted = [];
}

abbrev response : BalanceResponse ℕ
response = convert_legacy_balance_to_modern balances (codes "ETH") 9000

get_portfolio-again_example :
    let first =
      get_portfolio make api manager 300 snapshot_store
        (codes "ETH")
        (codes "0xa")
        (some alchemy)
        9000
        []
        idle in
    let s' = record first.1 {
      cached = (deliver_all manager 300 first.1.emitted (first.1.cached, [])).0;
      emitted = [];
    } in
    get_portfolio make api manager 300 snapshot_store
      (codes "ethereum")
      (codes "0xa")
      (some alchemy)
      9999
      []
      s'
    ≡ (answered response, s')
unfolding normalize_chain_input of_value to_lower get coin_symbol_to_chain_map set get_portfolio
    get_portfolio_data cache_get get_portfolio_snapshot get_chain_service_with_provider
    service_chain_input
get_portfolio-again_example =
    get_portfolio-again make api manager 300 snapshot_store (codes "ETH") (codes "ethereum")
      (codes "0xa") ethereum (some alchemy) 9000 9999 [] [] idle response map_manager-Stores
      (λ key v ttl s. (_, refl)) refl refl refl refl
