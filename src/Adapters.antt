-- ===== src/Adapters.antt =====
-- providers/adapters: what the providers' answers become, and the factory of the adapters. The raw
-- answers are typed by what the adapters read of them.
pub mod Completed
pub mod Coherent
pub mod Tests
use onekey_balance_kit.Base.{
  ℕ, ◌+◌, Bool, true, false, Option, none, some, List, [], ◌∷◌, ◌++◌, Text, codes, truthy, show,
  map, or_else, if◌then◌else◌, Map, get, set,
}
use onekey_balance_kit.Cache.{Reply, returned, threw}
use onekey_balance_kit.Chains.{ChainName, value, is_evm_chain}
use onekey_balance_kit.Db.{or_number}
use onekey_balance_kit.Portfolio.{TokenMetadata}
use onekey_balance_kit.ProviderApi.{
  TokenBalance, NftMetadata, NftBalance, BalancesResponse, text_or, then_get,
}
use onekey_balance_kit.Providers.{ProviderType, provider_value, quicknode}

pub record EvmRawToken : Type 0 where
  pub contract_address : Text
  pub token_balance : Option Text
  pub token_metadata : Option TokenMetadata

-- `raw_name` and `raw_image` are those of `raw?.metadata`.
pub record EvmRawNft : Type 0 where
  pub contract_address : Text
  pub contract_name : Option Text
  pub token_id : Text
  pub raw_name : Option Text
  pub raw_image : Option Text

pub record EvmRaw : Type 0 where
  pub native_balance : Text
  pub token_balances : List EvmRawToken
  pub owned_nfts : List EvmRawNft

pub record SolanaRawToken : Type 0 where
  pub mint : Text
  pub amount : Option Text
  pub decimals : Option ℕ
  pub symbol : Option Text
  pub name : Option Text

pub record SolanaRawNft : Type 0 where
  pub mint : Text
  pub name : Option Text
  pub image : Option Text
  pub collection_name : Option Text

pub record SolanaRaw : Type 0 where
  pub sol_balance : Text
  pub token_accounts : List SolanaRawToken
  pub nfts : List SolanaRawNft

pub record QuickNodeRawToken : Type 0 where
  pub contract_address : Text
  pub symbol : Option Text
  pub name : Option Text
  pub balance : Option Text
  pub decimals : Option ℕ

pub record QuickNodeRawNft : Type 0 where
  pub contract_address : Text
  pub token_id : Text
  pub name : Option Text
  pub symbol : Option Text
  pub metadata_image : Option Text

pub record QuickNodeRaw : Type 0 where
  pub native_balance : Text
  pub tokens : List QuickNodeRawToken
  pub nfts : List QuickNodeRawNft

abbrev pub metadata : Option Text → Option ℕ → Option Text → ℕ → TokenMetadata
metadata symbol decimals name default_decimals = record {
  symbol = some (text_or symbol (codes "UNKNOWN"));
  decimals = some (or_number decimals default_decimals);
  name = some (text_or name (codes "Unknown Token"));
}

abbrev pub response : Text → List TokenBalance → List NftBalance → BalancesResponse
response native tokens nfts = record {
  native_balance = native;
  tokens = tokens;
  nfts = nfts;
  is_success = none;
  error_message = none;
}

abbrev pub evm_token : EvmRawToken → TokenBalance
evm_token t = record {
  mint = t.contract_address;
  token_metadata = some (
      metadata (then_get t.token_metadata (λ m. m.symbol))
        (then_get t.token_metadata (λ m. m.decimals)) (then_get t.token_metadata (λ m. m.name)) 18);
  balance = text_or t.token_balance (codes "0");
}

abbrev pub evm_nft : EvmRawNft → NftBalance
evm_nft n = record {
  mint = n.contract_address;
  token_id = some n.token_id;
  token_metadata = some (record {
    name = some (text_or n.raw_name (text_or n.contract_name (codes "Unknown NFT")));
    image = some (text_or n.raw_image []);
    collection_name = some (text_or n.contract_name (codes "Unknown Collection"));
  });
}

unfoldable pub evm_balances_response : EvmRaw → BalancesResponse
evm_balances_response raw =
    response raw.native_balance (map evm_token raw.token_balances) (map evm_nft raw.owned_nfts)

abbrev pub solana_token : SolanaRawToken → TokenBalance
solana_token t = record {
  mint = t.mint;
  token_metadata = some (metadata t.symbol t.decimals t.name 9);
  balance = text_or t.amount (codes "0");
}

abbrev pub solana_nft : SolanaRawNft → NftBalance
solana_nft n = record {
  mint = n.mint;
  token_id = some n.mint;
  token_metadata = some (record {
    name = some (text_or n.name (codes "Unknown NFT"));
    image = some (text_or n.image []);
    collection_name = some (text_or n.collection_name (codes "Unknown Collection"));
  });
}

unfoldable pub solana_balances_response : SolanaRaw → BalancesResponse
solana_balances_response raw =
    response raw.sol_balance (map solana_token raw.token_accounts) (map solana_nft raw.nfts)

abbrev pub quicknode_token : QuickNodeRawToken → TokenBalance
quicknode_token t = record {
  mint = t.contract_address;
  token_metadata = some (metadata t.symbol t.decimals t.name 18);
  balance = text_or t.balance (codes "0");
}

abbrev pub quicknode_nft : QuickNodeRawNft → NftBalance
quicknode_nft n = record {
  mint = n.contract_address;
  token_id = some n.token_id;
  token_metadata = some (record {
    name = some (text_or n.name (codes "Unknown NFT"));
    image = some (text_or n.metadata_image []);
    collection_name = some (text_or n.symbol (codes "Unknown Collection"));
  });
}

unfoldable pub quicknode_balances_response : QuickNodeRaw → BalancesResponse
quicknode_balances_response raw =
    response raw.native_balance (map quicknode_token raw.tokens) (map quicknode_nft raw.nfts)

-- `toGasPrice` of the two EVM adapters, and of the Solana adapter.
unfoldable pub evm_gas_price : Option Text → Option Text → Text
evm_gas_price gas_price max_fee_per_gas = text_or max_fee_per_gas (text_or gas_price (codes "0"))

unfoldable pub solana_gas_price : ℕ → Text
solana_gas_price lamports_per_signature = show lamports_per_signature

-- The adapters, which have no state: an instance is its class and the number of its creation.
pub data AdapterKind : Type 0 where
  evm_adapter quicknode_adapter solana_adapter : AdapterKind

pub record Adapter : Type 0 where
  pub kind : AdapterKind
  pub serial : ℕ

pub record BalanceAdapterFactory : Type 0 where
  pub adapters : Map Adapter
  pub created : ℕ

abbrev pub get_adapter_key : ChainName → Option ProviderType → Text
get_adapter_key chain none = value chain
get_adapter_key chain (some p) = value chain ++ (b':' ∷ provider_value p)

abbrev is_quicknode : Option ProviderType → Bool
is_quicknode none = false
is_quicknode (some quicknode) = true
is_quicknode (some p) = false

-- The class of an adapter; the EVM and the Solana chains are all chains, so none is refused.
abbrev pub adapter_kind : ChainName → Option ProviderType → AdapterKind
adapter_kind chain provider =
    if is_evm_chain chain
    then (if is_quicknode provider then quicknode_adapter else evm_adapter)
    else solana_adapter

unfoldable pub for_provider :
    ChainName → Option ProviderType → BalanceAdapterFactory → Adapter × BalanceAdapterFactory
for_provider chain provider f = elim (get (get_adapter_key chain provider) f.adapters) [
  | some a ↦ (a, f)
  | none ↦
      let a : Adapter = record { kind = adapter_kind chain provider; serial = f.created } in
      (
        a,
        record {
          adapters = set (get_adapter_key chain provider) a f.adapters;
          created = f.created + 1;
        },
      )
]

unfoldable pub for_chain : ChainName → BalanceAdapterFactory → Adapter × BalanceAdapterFactory
unfolding for_provider
for_chain chain f = for_provider chain none f

pub data RawBalances : Type 0 where
  evm_raw : EvmRaw → RawBalances
  solana_raw : SolanaRaw → RawBalances
  quicknode_raw : QuickNodeRaw → RawBalances

-- `toBalancesResponse`; the lists of another provider's answer are undefined, so that `map` throws.
unfoldable pub to_balances_response : AdapterKind → RawBalances → Reply BalancesResponse
unfolding evm_balances_response solana_balances_response quicknode_balances_response
to_balances_response evm_adapter (evm_raw r) = returned (evm_balances_response r)
to_balances_response solana_adapter (solana_raw r) = returned (solana_balances_response r)
to_balances_response quicknode_adapter (quicknode_raw r) = returned (quicknode_balances_response r)
to_balances_response _ _ = threw
