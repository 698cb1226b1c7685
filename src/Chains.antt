-- ===== src/Chains.antt =====
-- chains/constants/index.ts: the chain names, their table of facts, and the maps derived from it.
-- A table that the source writes as an object over all chain names is a function by clauses; an
-- object filled by `reduce` is a `Map`. Inherited properties of objects are left out.
pub mod Lookup
pub mod Alchemy
use onekey_balance_kit.Base.{
  ℕ, Bool, true, false, Option, none, some, List, [], ◌∷◌, map, Text, codes, to_lower, Map, get,
  set, if◌then◌else◌, any, text_beq, find_if, nat_beq,
}

pub data ChainName : Type 0 where
  ethereum solana polygon bsc : ChainName
  ethereum_goerli ethereum_sepolia solana_devnet bsc_testnet polygon_mumbai : ChainName

-- The string that the enum member stands for.
abbrev pub value : ChainName → Text
value ethereum = codes "ethereum"
value solana = codes "solana"
value polygon = codes "polygon"
value bsc = codes "bsc"
value ethereum_goerli = codes "ethereum_goerli"
value ethereum_sepolia = codes "ethereum_sepolia"
value solana_devnet = codes "solana_devnet"
value bsc_testnet = codes "bsc_testnet"
value polygon_mumbai = codes "polygon_mumbai"

-- `Object.values(ChainName)`, also the order of `CHAIN_INFO_MAP`.
abbrev pub all_chains : List ChainName
all_chains =
    ethereum ∷ solana ∷ polygon ∷ bsc ∷ ethereum_goerli ∷ ethereum_sepolia ∷ solana_devnet
    ∷ bsc_testnet ∷ polygon_mumbai ∷ []

-- `Object.values(ChainName).includes(s)`, with the member that was found.
unfoldable pub of_value : Text → Option ChainName
of_value s = find_if (λ c. text_beq (value c) s) all_chains

abbrev same_chain : ChainName → ChainName → Bool
same_chain c d = text_beq (value c) (value d)

unfoldable pub is_evm_chain : ChainName → Bool
is_evm_chain chain =
    any (λ c. same_chain c chain)
      (ethereum ∷ polygon ∷ bsc ∷ ethereum_goerli ∷ ethereum_sepolia ∷ bsc_testnet ∷ polygon_mumbai
        ∷ [])

pub record BaseChainInfo : Type 0 where
  pub id : ℕ
  pub name : ChainName
  pub display : Text
  pub coin_symbols : List Text
  pub is_mainnet : Bool
  pub mainnet_ref : Option ChainName
  pub network_identifier : Option Text

abbrev main_net : ℕ → ChainName → Text → List Text → Text → BaseChainInfo
main_net id name display symbols network = record {
  id = id;
  name = name;
  display = display;
  coin_symbols = symbols;
  is_mainnet = true;
  mainnet_ref = none;
  network_identifier = some network;
}

abbrev test_net : ℕ → ChainName → Text → List Text → ChainName → Text → BaseChainInfo
test_net id name display symbols main network = record {
  id = id;
  name = name;
  display = display;
  coin_symbols = symbols;
  is_mainnet = false;
  mainnet_ref = some main;
  network_identifier = some network;
}

-- `CHAIN_INFO_MAP`.
abbrev pub chain_info_map : ChainName → BaseChainInfo
chain_info_map ethereum =
    main_net 1 ethereum (codes "Ethereum") (codes "eth" ∷ codes "ethereum" ∷ [])
      (codes "ETH_MAINNET")
chain_info_map solana =
    main_net 101 solana (codes "Solana") (codes "sol" ∷ codes "solana" ∷ []) (codes "SOL_MAINNET")
chain_info_map polygon =
    main_net 137 polygon (codes "Polygon") (codes "poly" ∷ codes "matic" ∷ codes "polygon" ∷ [])
      (codes "POLY_MAINNET")
chain_info_map bsc =
    main_net 56 bsc (codes "BNB Smart Chain") (codes "bsc" ∷ codes "bnb" ∷ []) (codes "BSC_MAINNET")
chain_info_map ethereum_goerli =
    test_net 5 ethereum_goerli (codes "Ethereum Goerli")
      (codes "eth" ∷ codes "ethereum" ∷ codes "goerli" ∷ []) ethereum (codes "ETH_GOERLI")
chain_info_map ethereum_sepolia =
    test_net 11155111 ethereum_sepolia (codes "Ethereum Sepolia")
      (codes "eth" ∷ codes "ethereum" ∷ codes "sepolia" ∷ []) ethereum (codes "ETH_SEPOLIA")
chain_info_map solana_devnet =
    test_net 103 solana_devnet (codes "Solana Devnet")
      (codes "sol" ∷ codes "solana" ∷ codes "devnet" ∷ []) solana (codes "SOL_DEVNET")
chain_info_map bsc_testnet =
    test_net 97 bsc_testnet (codes "BNB Smart Chain Testnet")
      (codes "bsc" ∷ codes "bnb" ∷ codes "testnet" ∷ []) bsc (codes "BSC_TESTNET")
chain_info_map polygon_mumbai =
    test_net 80001 polygon_mumbai (codes "Polygon Mumbai")
      (codes "poly" ∷ codes "matic" ∷ codes "polygon" ∷ codes "mumbai" ∷ []) polygon
      (codes "POLY_MUMBAI")

add_network : List ChainName → Map ChainName → Map ChainName
add_network [] m = m
add_network (c ∷ cs) m = elim (chain_info_map c).network_identifier [
  | none ↦ add_network cs m
  | some network ↦ add_network cs (set network (chain_info_map c).name m)
]

-- `NETWORK_ID_TO_CHAIN_MAP`.
unfoldable pub network_id_to_chain_map : Map ChainName
unfolding add_network
network_id_to_chain_map = add_network all_chains []

-- `CHAIN_INFO_MAP[chainName]?.id || null`.
unfoldable pub get_chain_id : ChainName → Option ℕ
get_chain_id chain = let n = (chain_info_map chain).id in if nat_beq n 0 then none else some n

unfoldable pub get_chain_id_from_network_id : Text → Option ℕ
get_chain_id_from_network_id network = elim (get network network_id_to_chain_map) [
  | none ↦ none
  | some chain ↦ some (chain_info_map chain).id
]

pub record EvmChainInfo : Type 0 where
  pub base : BaseChainInfo
  pub symbol : Text
  pub decimals : ℕ

abbrev evm_info : ChainName → Text → Option EvmChainInfo
evm_info c symbol = some (record { base = chain_info_map c; symbol = symbol; decimals = 18 })

-- `EVM_CHAIN_INFO_MAP`.
unfoldable pub evm_chain_info_map : ChainName → Option EvmChainInfo
evm_chain_info_map ethereum = evm_info ethereum (codes "ETH")
evm_chain_info_map polygon = evm_info polygon (codes "MATIC")
evm_chain_info_map bsc = evm_info bsc (codes "BNB")
evm_chain_info_map ethereum_goerli = evm_info ethereum_goerli (codes "ETH")
evm_chain_info_map ethereum_sepolia = evm_info ethereum_sepolia (codes "ETH")
evm_chain_info_map bsc_testnet = evm_info bsc_testnet (codes "BNB")
evm_chain_info_map polygon_mumbai = evm_info polygon_mumbai (codes "MATIC")
evm_chain_info_map solana = none
evm_chain_info_map solana_devnet = none

add_symbols : List Text → ChainName → Map ChainName → Map ChainName
add_symbols [] c m = m
add_symbols (s ∷ ss) c m = add_symbols ss c (set (to_lower s) c m)

add_coins : List ChainName → Map ChainName → Map ChainName
unfolding add_symbols
add_coins [] m = m
add_coins (c ∷ cs) m =
    let info = chain_info_map c in
    let named =
      set (to_lower (value info.name)) info.name (add_symbols info.coin_symbols info.name m) in
    add_coins cs (if info.is_mainnet then named else m)

-- `COIN_SYMBOL_TO_CHAIN_MAP`.
unfoldable pub coin_symbol_to_chain_map : Map ChainName
unfolding add_coins
coin_symbol_to_chain_map = add_coins all_chains []

-- The scan over `Object.entries(CHAIN_INFO_MAP)` that the chain router and the provider factory
-- both write.
unfoldable pub get_chain_name_by_chain_id : ℕ → Option ChainName
get_chain_name_by_chain_id chain_id =
    find_if (λ c. nat_beq (chain_info_map c).id chain_id) all_chains
