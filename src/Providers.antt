-- ===== src/Providers.antt =====
-- providers/constants/blockchain-types.ts: the provider types and the default of each chain.
use onekey_balance_kit.Base.{Option, none, some, List, [], ◌∷◌, Text, codes, or_else}
use onekey_balance_kit.Chains.{
  ChainName, ethereum, solana, polygon, bsc, ethereum_goerli, ethereum_sepolia, solana_devnet,
  bsc_testnet, polygon_mumbai,
}

pub data ProviderType : Type 0 where
  alchemy rpc infura quicknode okx : ProviderType

abbrev pub provider_value : ProviderType → Text
provider_value alchemy = codes "alchemy"
provider_value rpc = codes "rpc"
provider_value infura = codes "infura"
provider_value quicknode = codes "quicknode"
provider_value okx = codes "okx"

abbrev pub all_providers : List ProviderType
all_providers = alchemy ∷ rpc ∷ infura ∷ quicknode ∷ okx ∷ []

abbrev pub chain_to_default_provider_map : ChainName → Option ProviderType
chain_to_default_provider_map ethereum = some alchemy
chain_to_default_provider_map solana = some alchemy
chain_to_default_provider_map polygon = some alchemy
chain_to_default_provider_map bsc = some alchemy
chain_to_default_provider_map ethereum_goerli = some alchemy
chain_to_default_provider_map ethereum_sepolia = some alchemy
chain_to_default_provider_map solana_devnet = some alchemy
chain_to_default_provider_map bsc_testnet = none
chain_to_default_provider_map polygon_mumbai = none

unfoldable pub get_default_provider_for_chain : ChainName → ProviderType
get_default_provider_for_chain chain = or_else (chain_to_default_provider_map chain) alchemy
