-- ===== src/SolanaChain/Tests.antt =====
-- The theorem on the Solana service at an example: a provider that knows one token.
use onekey_balance_kit.Base.{ℕ, true, false, ◌+◌, none, some, [], ◌∷◌, codes}
use onekey_balance_kit.Cache.{returned}
use onekey_balance_kit.ProviderApi.{BalancesResponse, ProviderApi}
use onekey_balance_kit.ProviderFactory.{Nest, Factory, one, register_providers, empty_factory}
use onekey_balance_kit.Chains.{solana, value}
use onekey_balance_kit.SolanaChain.{
  SolanaService, SolanaBalances, testnet_cluster, spl_token, get_balances,
}

abbrev reply : BalancesResponse
reply = record {
  native_balance = codes "15";
  tokens = record { mint = codes "So1"; token_metadata = none; balance = codes "7" } ∷ [];
  nfts = [];
  is_success = some true;
  error_message = none;
}

abbrev api : ProviderApi ℕ
api = record { is_supported = λ i. true; get_balances = λ i address network chain. returned reply }

-- A class that serves Solana.
abbrev solana_factory : Factory ℕ ℕ
solana_factory = register_providers ((value solana, codes "alchemy", 0) ∷ []) empty_factory

abbrev solana_nest : Nest ℕ ℕ
solana_nest = record {
  metadata = λ c. some (one (value solana));
  make = λ c. returned (some (c + 100));
  env = λ key. none;
  testing = false;
}

abbrev service : SolanaService ℕ ℕ
service = record {
  current_chain_id = 101;
  default_provider = some (codes "alchemy");
  factory = solana_factory;
}

abbrev balances : SolanaBalances ℕ
balances = record {
  cluster = testnet_cluster;
  native_balance = record { symbol = codes "SOL"; decimals = 9; balance = codes "15"; usd = 0 };
  tokens =
      spl_token (record { mint = codes "So1"; token_metadata = none; balance = codes "7" }) ∷ [];
  nfts = [];
  updated_at = 9;
}
