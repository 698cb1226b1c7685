-- ===== src/Alchemy/Tests.antt =====
-- The theorems on the Alchemy provider at examples: one key for all chains.
use onekey_balance_kit.Adapters.Coherent.{ask_adapters, empty_adapters}
use onekey_balance_kit.Adapters.Completed.{IsComplete}
use onekey_balance_kit.Adapters.{EvmRaw, evm_raw}
use onekey_balance_kit.Alchemy.Answered.{get_balances_answered}
use onekey_balance_kit.Alchemy.Calls.{get_balances}
use onekey_balance_kit.Alchemy.Remotes.{Clients, remote_of}
use onekey_balance_kit.EvmStrategy.{SdkClient, evm_raw_token, with_metadata, evm_raw_balances}
use onekey_balance_kit.SolanaStrategy.{SolanaRpc}
use onekey_balance_kit.QuickNode.{Core}
use onekey_balance_kit.QuickNode.Estimate.{TransactionRequest}
use onekey_balance_kit.Alchemy.Initialized.{get_strategy-on_module_init}
use onekey_balance_kit.Alchemy.{
  get_api_key, evm_alchemy, create_facade, get_strategy, on_module_init,
}
use onekey_balance_kit.Base.{
  set, get, ℕ, ◌≡◌, refl, true, Option, none, some, [], ◌∷◌, Text, codes, show, text_beq,
  if◌then◌else◌,
}
use onekey_balance_kit.Cache.{returned, threw}
use onekey_balance_kit.Chains.Alchemy.{Network}
use onekey_balance_kit.Chains.{is_evm_chain, ethereum}
use onekey_balance_kit.ProviderApi.{mainnet, BalancesResponse}
use onekey_balance_kit.Providers.{quicknode}

abbrev networks : Network ℕ
networks = record {
  eth_mainnet = 0;
  eth_goerli = 1;
  eth_sepolia = 2;
  matic_mainnet = 3;
  matic_mumbai = 4;
  bnb_mainnet = 5;
  bnb_testnet = 6;
  solana_mainnet = 7;
  solana_devnet = 8;
}

abbrev config : Text → Option Text
config name = if text_beq name (codes "ALCHEMY_API_KEY") then some (codes "key") else none

-- A client of the SDK whose account has one token, without metadata.
abbrev sdk_client : SdkClient TransactionRequest
sdk_client = record {
  get_balance = λ address. returned 15;
  get_token_balances = λ address.
      returned (record { contract_address = codes "0xc"; token_balance = some (codes "7") } ∷ []);
  get_token_metadata = λ contract. returned none;
  get_nfts_for_owner = λ address. returned [];
  get_fee_data = threw;
  estimate = λ tx. threw;
}

abbrev rpc : SolanaRpc
rpc = record {
  get_balance = λ address. threw;
  token_accounts = λ address. threw;
  program_accounts = λ mint. threw;
  fetch_metadata = λ uri. threw;
  get_nfts = λ address. threw;
  lamports_per_signature = threw;
  simulate = λ message. threw;
}

abbrev core_client : Core
core_client = record {
  get_balance = λ address. threw;
  fetch_token_balances = none;
  fetch_nfts = none;
  get_gas_price = threw;
  max_priority_fee = none;
  send_estimate = none;
  estimate_gas = λ to d value. threw;
  call = λ to d. threw;
}

abbrev pub clients : Clients ℕ
clients = record {
  sdk = λ key network. sdk_client;
  solana_rpc = λ key is_devnet. rpc;
  core = λ url. core_client;
  message = λ tx. [];
}

abbrev answer : EvmRaw
answer = record {
  native_balance = show 15;
  token_balances =
      evm_raw_token (record { contract_address = codes "0xc"; token_balance = some (codes "7") })
        none
      ∷ [];
  owned_nfts = [];
}

get_strategy-on_module_init_example :
    get_strategy mainnet
      (some ethereum)
      (on_module_init networks config (λ s. true) (create_facade config))
    ≡ some (evm_alchemy (codes "key") 0)
unfolding get_api_key create_facade is_evm_chain
get_strategy-on_module_init_example =
    get_strategy-on_module_init networks config (λ s. true) mainnet ethereum

get_balances_answered_example :
    (b : BalancesResponse) × ((get_balances
        (remote_of clients)
        (codes "0xa")
        mainnet
        (some ethereum)
        (on_module_init networks config (λ s. true) (create_facade config))
        (ask_adapters ((ethereum, some quicknode) ∷ []) empty_adapters)).0
      ≡ returned b)
    × IsComplete (evm_raw answer) b
unfolding get_strategy get on_module_init get_api_key create_facade is_evm_chain set
    evm_raw_balances with_metadata
get_balances_answered_example =
    get_balances_answered networks config (λ s. true) clients ((ethereum, some quicknode) ∷ [])
      ethereum mainnet (codes "0xa") (evm_alchemy (codes "key") 0) (evm_raw answer) refl refl
