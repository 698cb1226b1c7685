-- ===== src/Chains/Alchemy.antt =====
-- webhook/utils/alchemy-network.utils.ts. The SDK's `Network` enumeration is not under src, so the
-- mapping to it takes its members as an argument.
use onekey_balance_kit.Base.{◌≡◌, ◌↔◌, Option, none, some, Text, codes, get, set, arith, or_else}
use onekey_balance_kit.Chains.{
  ChainName, ethereum, solana, polygon, bsc, ethereum_goerli, ethereum_sepolia, solana_devnet,
  bsc_testnet, polygon_mumbai, network_id_to_chain_map, chain_info_map,
}

-- The members of the SDK's enumeration that the source names.
pub record Network {ℓ} (N : Type ℓ) : Type ℓ where
  pub eth_mainnet : N
  pub eth_goerli : N
  pub eth_sepolia : N
  pub matic_mainnet : N
  pub matic_mumbai : N
  pub bnb_mainnet : N
  pub bnb_testnet : N
  pub solana_mainnet : N
  pub solana_devnet : N

abbrev pub get_alchemy_network_for_chain {ℓ} : {N : Type ℓ} → Network N → ChainName → Option N
get_alchemy_network_for_chain net ethereum = some net.eth_mainnet
get_alchemy_network_for_chain net ethereum_goerli = some net.eth_goerli
get_alchemy_network_for_chain net ethereum_sepolia = some net.eth_sepolia
get_alchemy_network_for_chain net polygon = some net.matic_mainnet
get_alchemy_network_for_chain net polygon_mumbai = some net.matic_mumbai
get_alchemy_network_for_chain net bsc = some net.bnb_mainnet
get_alchemy_network_for_chain net bsc_testnet = some net.bnb_testnet
get_alchemy_network_for_chain net solana = some net.solana_mainnet
get_alchemy_network_for_chain net solana_devnet = some net.solana_devnet

unfoldable pub get_chain_name_from_network_id : Text → Option ChainName
get_chain_name_from_network_id network = get network network_id_to_chain_map

unfoldable pub get_network_id_for_chain : ChainName → Option Text
get_network_id_for_chain ethereum = some (codes "ETH_MAINNET")
get_network_id_for_chain ethereum_goerli = some (codes "ETH_GOERLI")
get_network_id_for_chain ethereum_sepolia = some (codes "ETH_SEPOLIA")
get_network_id_for_chain polygon = some (codes "MATIC_MAINNET")
get_network_id_for_chain polygon_mumbai = some (codes "MATIC_MUMBAI")
get_network_id_for_chain bsc = some (codes "BNB_MAINNET")
get_network_id_for_chain bsc_testnet = some (codes "BNB_TESTNET")
get_network_id_for_chain solana = some (codes "SOLANA_MAINNET")
get_network_id_for_chain solana_devnet = some (codes "SOLANA_DEVNET")

-- The chain, if any, that the way back from a chain's network ID ends at.
unfoldable pub round_trip : ChainName → Option ChainName
unfolding get_chain_name_from_network_id get_network_id_for_chain
round_trip c = elim (get_network_id_for_chain c) [
  | none ↦ none
  | some network ↦ get_chain_name_from_network_id network
]

-- The main net that a chain belongs to.
abbrev pub family : ChainName → ChainName
family c = or_else (chain_info_map c).mainnet_ref c

-- From a chain to its Alchemy network ID and back one returns to the chain exactly for Ethereum and
-- its test nets. For Polygon, BSC and Solana the way back finds no chain.
pub round_trip_cases :
    (c : ChainName)
    → ((round_trip c ≡ some c) ↔ (family c ≡ ethereum))
      × ((round_trip c ≡ none) ↔ (¬ (family c ≡ ethereum)))
unfolding round_trip network_id_to_chain_map get set
round_trip_cases ethereum = ground arith
round_trip_cases ethereum_goerli = ground arith
round_trip_cases ethereum_sepolia = ground arith
round_trip_cases c = ground arith
