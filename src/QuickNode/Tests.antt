-- ===== src/QuickNode/Tests.antt =====
-- The theorems on QuickNode at examples: a client of the main net without a request method.
use onekey_balance_kit.Alchemy.Strategies.{create_quicknode_strategy}
use onekey_balance_kit.Adapters.Coherent.{ask_adapters, empty_adapters}
use onekey_balance_kit.Adapters.Completed.{IsComplete}
use onekey_balance_kit.Adapters.{QuickNodeRaw, quicknode_raw, quicknode_adapter}
use onekey_balance_kit.Alchemy.Calls.{to_gas_price}
use onekey_balance_kit.Alchemy.Tests.{clients as sdk_clients}
use onekey_balance_kit.Alchemy.Remotes.{Clients, remote_of}
use onekey_balance_kit.Alchemy.{evm_quicknode}
use onekey_balance_kit.Base.{
  ℕ, get, ◌≡◌, refl, true, Option, none, some, [], ◌∷◌, Text, codes, show, ◌++◌, text_beq,
  if◌then◌else◌,
}
use onekey_balance_kit.Cache.{returned, threw}
use onekey_balance_kit.Chains.{is_evm_chain, ethereum}
use onekey_balance_kit.ProviderApi.{mainnet, testnet, BalancesResponse}
use onekey_balance_kit.Alchemy.Answered.{quicknode_balances_answered}
use onekey_balance_kit.QuickNode.Provider.{
  EthereumQuickNodeProvider, create_provider, start_provider, quicknode_balances, mainnet_url,
}
use onekey_balance_kit.QuickNode.BigInt.{pos, big_int, read_digits, show_hex, pad_start}
use onekey_balance_kit.QuickNode.Contracts.{get_erc20_balance}
use onekey_balance_kit.QuickNode.Estimate.{TransactionRequest, get_raw_estimate_gas}
use onekey_balance_kit.QuickNode.Numbers.{get_raw_estimate_gas-answered, get_erc20_balance-called}
use onekey_balance_kit.QuickNode.Raw.{fees, get_raw_gas_price-paid}
use onekey_balance_kit.QuickNode.{
  Core, EstimateRequest, call_text, ensure_hex_address, GasPrices, get_raw_gas_price,
  get_raw_balances, fetch_lists,
}

abbrev client : Core
client = record {
  get_balance = λ address. returned 12;
  fetch_token_balances = some (λ wallet contract. threw);
  fetch_nfts = none;
  get_gas_price = returned 30;
  max_priority_fee = none;
  send_estimate = none;
  estimate_gas = λ to d value. threw;
  call = λ to d. threw;
}

get_raw_gas_price-paid_example :
    (g : GasPrices) × (get_raw_gas_price (some client) none mainnet ≡ returned g)
    × (to_gas_price quicknode_adapter (fees g) ≡ returned (show 0))
get_raw_gas_price-paid_example =
    get_raw_gas_price-paid (some client) none mainnet client 30 refl refl

abbrev config : Text → Option Text
config name = if text_beq name mainnet_url then some (codes "https://q") else none

abbrev clients : Clients ℕ
clients = record sdk_clients { core = λ url. client }

abbrev answer : QuickNodeRaw
answer = record { native_balance = show 12; tokens = []; nfts = [] }

quicknode_balances_answered_example :
    (b : BalancesResponse) × ((quicknode_balances
        (remote_of clients)
        (λ a. true)
        (codes "0xa")
        testnet
        (start_provider config (λ url. true) (λ s. true) create_provider []).0
        (ask_adapters ((ethereum, none) ∷ []) empty_adapters)).0
      ≡ returned b)
    × IsComplete (quicknode_raw answer) b
unfolding start_provider create_quicknode_strategy get is_evm_chain get_raw_balances fetch_lists
    ensure_hex_address
quicknode_balances_answered_example =
    quicknode_balances_answered config (λ url. true) (λ s. true) clients (λ a. true)
      ((ethereum, none) ∷ []) testnet (codes "0xa") (evm_quicknode (some (codes "https://q")) none)
      (quicknode_raw answer) refl refl refl

-- A node that answers requests: each costs 21000, each balance is 255.
abbrev node : Core
node = record client {
  send_estimate = some (λ r. returned (codes "0x" ++ show_hex 21000));
  call = λ to d. returned (call_text (codes "0x" ++ pad_start 64 b'0' (show_hex 255)));
}

abbrev transfer : TransactionRequest
transfer = record {
  from = codes "0xA";
  to = some (codes "0xB");
  value = some (codes "1000");
  tx_data = none;
}

get_raw_estimate_gas-answered_example :
    (r : EstimateRequest) × (t : Text) × (get_raw_estimate_gas (some node) none transfer mainnet
      ≡ returned (show 21000))
    × (r.value ≡ some t)
    × (big_int t ≡ some (pos 1000))
    × (r.from ≡ ensure_hex_address (codes "0xA"))
unfolding big_int read_digits
get_raw_estimate_gas-answered_example =
    get_raw_estimate_gas-answered (some node) none mainnet node
      (λ r. returned (codes "0x" ++ show_hex 21000)) (λ r. 21000) transfer (codes "1000") 1000 refl
      refl (λ r. refl) refl refl refl

abbrev started : EthereumQuickNodeProvider Unit
started = record create_provider { mainnet_client = some (codes "https://q") }

abbrev owner_digits : Text
owner_digits = codes "742d35cc6634c0532925a3b844bc454e4438f44e"

get_erc20_balance-called_example :
    get_erc20_balance
      (λ url. node)
      (λ a. true)
      (codes "0x" ++ owner_digits)
      (codes "0xc")
      testnet
      started
    ≡ returned (show 255)
get_erc20_balance-called_example =
    get_erc20_balance-called (λ url. node) (λ a. true) owner_digits (codes "0xc") testnet started
      node 64 255 refl refl refl refl refl refl
