-- ===== src/Balances.antt =====
-- balances/services/balance.service.ts: the portfolio of an address, from the cache, the database or the
-- chain. The chain services are an argument, as the service calls them; `provider` is the provider of
-- the request, which the source casts to a `ProviderType`.
pub mod Answers
pub mod Again
pub mod Tests
use onekey_balance_kit.Base.{
  ℕ, ◌/◌, Bool, Option, none, some, List, [], ◌∷◌, Text, codes, truthy, to_lower, is_some, not, map,
  keep_if, find_if, or_else, if◌then◌else◌, get,
}
use onekey_balance_kit.Cache.{Reply, returned, threw, Manager, StoreView, CacheService, Purge}
use onekey_balance_kit.CacheMongo.{get_portfolio_data, invalidate_address_cache}
use onekey_balance_kit.ChainServices.{
  ChainService, ChainServiceFactory, get_chain_service, get_chain_service_with_provider,
}
use onekey_balance_kit.Chains.{ChainName, value, of_value, chain_info_map, coin_symbol_to_chain_map}
use onekey_balance_kit.Db.{Models, or_number}
use onekey_balance_kit.Notification.{Emitted, emit_portfolio_update}
use onekey_balance_kit.Portfolio.{NativeBalance, Token, BalanceResponse, PortfolioData, as_data}
use onekey_balance_kit.Providers.{ProviderType, provider_value}

-- The old format of balances.
pub record LegacyToken : Type 0 where
  pub symbol : Text
  pub balance : Text
  pub token_address : Option Text

-- What `getBalances` of a chain service gives: nothing, the old format or the new one.
pub data BalanceData (P : Type 0) : Type 0 where
  nothing : BalanceData P
  legacy : List LegacyToken → BalanceData P
  modern : PortfolioData P → BalanceData P

-- The methods of a chain service that the balance service calls.
pub record ChainApi (V P : Type 0) : Type 0 where
  pub is_valid_address : ChainService V → Text → Bool
  pub is_balance_queryable : ChainService V → Bool
  pub get_balances : ChainService V → Text → ℕ → Option ProviderType → Reply (BalanceData P)
  pub get_chain_symbol : ChainService V → Text

-- The exceptions of the service; `rethrown` is one of a service that it calls.
pub data PortfolioError : Type 0 where
  balance_chain_not_supported blockchain_invalid_address balance_fetch_failed rethrown :
      PortfolioError

pub data Answer (A : Type 0) : Type 0 where
  answered : A → Answer A
  refused : PortfolioError → Answer A

unfoldable pub normalize_chain_input : Text → Option ChainName
normalize_chain_input input = elim (of_value (to_lower input)) [
  | some chain ↦ some chain
  | none ↦ get (to_lower input) coin_symbol_to_chain_map
]

-- `nativeToken?.balance || '0'`.
abbrev pub native_amount : Option LegacyToken → Text
native_amount none = codes "0"
native_amount (some t) = if truthy t.balance then t.balance else codes "0"

module _ {P : Type 0} where
  abbrev pub blank_native : Text → Text → NativeBalance P
  blank_native symbol balance = record {
    symbol = symbol;
    balance = balance;
    decimals = some 18;
    usd = none;
  }

  abbrev pub modern_token : LegacyToken → Token P
  modern_token t = record {
    address = none;
    mint = t.token_address;
    symbol = none;
    name = none;
    balance = t.balance;
    decimals = none;
    usd = none;
    logo = none;
    token_metadata =
        some (record { symbol = some t.symbol; name = some t.symbol; decimals = some 18 });
  }

  unfoldable pub convert_legacy_balance_to_modern : List LegacyToken → Text → ℕ → BalanceResponse P
  convert_legacy_balance_to_modern balances symbol now = record {
    native_balance =
        blank_native symbol (native_amount (find_if (λ t. not (is_some t.token_address)) balances));
    tokens = map modern_token (keep_if (λ t. is_some t.token_address) balances);
    nfts = [];
    updated_at = now / 1000;
  }

  -- The `fungibles` come first, then the `tokens`.
  unfoldable pub get_tokens_from_balance_data : PortfolioData P → List (Token P)
  get_tokens_from_balance_data d = elim d.fungibles [ some xs ↦ xs | none ↦ or_else d.tokens [] ]

  -- The result with the properties that it has to have.
  unfoldable pub complete_response : Text → ℕ → PortfolioData P → BalanceResponse P
  unfolding get_tokens_from_balance_data
  complete_response symbol now d = record {
    native_balance = or_else d.native_balance (blank_native symbol (codes "0"));
    tokens = get_tokens_from_balance_data d;
    nfts = or_else d.nfts [];
    updated_at = or_number d.updated_at (now / 1000);
  }

  unfoldable pub response_from : Text → ℕ → BalanceData P → Answer (BalanceResponse P)
  unfolding complete_response convert_legacy_balance_to_modern
  response_from symbol now nothing = refused balance_fetch_failed
  response_from symbol now (legacy xs) =
      answered
        (complete_response symbol now (as_data (convert_legacy_balance_to_modern xs symbol now)))
  response_from symbol now (modern d) = answered (complete_response symbol now d)

pub record BalanceService (C V S P : Type 0) : Type 0 where
  pub factory : ChainServiceFactory C V
  pub cached : S
  pub emitted : Emitted (BalanceResponse P)

module _ {C V S D P : Type 0} (make : C → Reply (Option V)) (api : ChainApi V P)
    (cache : Manager S (BalanceResponse P)) (default_ttl : ℕ) (db : Models P D) where
  -- The balances of an address, from the chain service of a chain.
  unfoldable pub fetch_balances :
      ChainService V → ChainName → Text → Option ProviderType → ℕ → Answer (BalanceResponse P)
  unfolding response_from
  fetch_balances service chain address provider now =
      if api.is_valid_address service address
      then (if api.is_balance_queryable service
          then elim (api.get_balances service address (chain_info_map chain).id provider) [
            | threw ↦ refused rethrown
            | returned balances ↦ response_from (api.get_chain_symbol service) now balances
          ]
          else refused balance_chain_not_supported)
      else refused blockchain_invalid_address

  unfoldable pub chain_service_for :
      ChainName
      → Option ProviderType
      → ChainServiceFactory C V
      → Option (ChainService V) × ChainServiceFactory C V
  chain_service_for chain none f = get_chain_service make (value chain) f
  chain_service_for chain (some p) f =
      get_chain_service_with_provider make (value chain) (provider_value p) f

  -- The part behind the cache; only a result is emitted.
  unfoldable pub fetch_portfolio :
      ChainName
      → Text
      → Option ProviderType
      → ℕ
      → BalanceService C V S P
      → Answer (BalanceResponse P) × BalanceService C V S P
  unfolding fetch_balances chain_service_for
  fetch_portfolio chain address provider now s =
      let (found, factory) = chain_service_for chain provider s.factory in
      let s' = record s { factory = factory } in
      elim found [
        | none ↦ (refused rethrown, s')
        | some service ↦ elim (fetch_balances service chain address provider now) [
          | refused e ↦ (refused e, s')
          | answered r ↦ (
            answered r,
            record s' {
              emitted =
                  emit_portfolio_update chain (chain_info_map chain).id address r provider none
                    s.emitted;
            },
          )
        ]
      ]

  unfoldable pub get_portfolio_of_chain :
      ChainName
      → Text
      → Option ProviderType
      → ℕ
      → D
      → BalanceService C V S P
      → Answer (BalanceResponse P) × BalanceService C V S P
  unfolding fetch_portfolio
  get_portfolio_of_chain chain address provider now d s =
      let (read, cached) =
        get_portfolio_data cache default_ttl db chain (chain_info_map chain).id address provider
          none now d s.cached in
      let s' = record s { cached = cached } in
      elim read [
        | threw ↦ (refused rethrown, s')
        | returned (some r) ↦ (answered r, s')
        | returned none ↦ fetch_portfolio chain address provider now s'
      ]

  -- `getPortfolio`; every chain has an ID.
  unfoldable pub get_portfolio :
      Text
      → Text
      → Option ProviderType
      → ℕ
      → D
      → BalanceService C V S P
      → Answer (BalanceResponse P) × BalanceService C V S P
  unfolding get_portfolio_of_chain
  get_portfolio input address provider now d s = elim (normalize_chain_input input) [
    | none ↦ (refused balance_chain_not_supported, s)
    | some chain ↦ get_portfolio_of_chain chain address provider now d s
  ]

-- `invalidateAddressCache`.
unfoldable pub invalidate_address_balances :
    {P C D : Type 0}
    → List (StoreView C)
    → (ℕ → Bool)
    → Bool
    → (Text → List Text)
    → Models P D
    → ChainName
    → Text
    → ℕ
    → D
    → CacheService C
    → Reply ℕ × D × Purge C
unfolding invalidate_address_cache
invalidate_address_balances stores exec_ok scan_ok scan db chain address now d service =
    invalidate_address_cache stores exec_ok scan_ok scan db chain (chain_info_map chain).id address
      now d service
