-- ===== src/SolanaStrategy.antt =====
-- providers/strategies/implementations/solana-alchemy.strategy.ts: the strategy of Alchemy for Solana. What
-- the RPC calls and the fetches answer is an argument.
pub mod Raw
use onekey_balance_kit.Adapters.{SolanaRawToken, SolanaRawNft, SolanaRaw}
use onekey_balance_kit.Base.{
  ℕ, Bool, Option, none, some, List, [], ◌∷◌, Text, codes, truthy, show, map, if◌then◌else◌,
}
use onekey_balance_kit.Cache.{Reply, returned, threw}
use onekey_balance_kit.Db.{or_number}
use onekey_balance_kit.ProviderApi.{text_or}

-- The URL of the RPC calls, for the devnet or the main net.
abbrev pub base_url : Bool → Text
base_url is_devnet =
    if is_devnet
    then codes "https://solana-devnet.g.alchemy.com/v2/"
    else codes "https://solana-mainnet.g.alchemy.com/v2/"

-- `account.data.parsed.info` of a token account.
pub record ParsedInfo : Type 0 where
  pub mint : Option Text
  pub amount : Option Text
  pub decimals : Option ℕ

pub record OwnedNft : Type 0 where
  pub address : Text
  pub name : Option Text
  pub image_url : Option Text
  pub collection_name : Option Text

-- `program_accounts` gives the URIs of the metadata accounts of a mint, `fetch_metadata` the symbol and
-- the name behind a URI, and `simulate` the units that a transaction consumes.
pub record SolanaRpc : Type 0 where
  pub get_balance : Text → Reply ℕ
  pub token_accounts : Text → Reply (List ParsedInfo)
  pub program_accounts : Text → Reply (List (Option Text))
  pub fetch_metadata : Text → Reply (Option Text × Option Text)
  pub get_nfts : Text → Reply (List OwnedNft)
  pub lamports_per_signature : Reply ℕ
  pub simulate : Text → Reply (Option ℕ)

abbrev pub first_uri : List (Option Text) → Option Text
first_uri [] = none
first_uri (uri ∷ _) = some (text_or uri [])

unfoldable pub get_mint_metadata_uri : SolanaRpc → Text → Option Text
get_mint_metadata_uri rpc mint = elim (rpc.program_accounts mint) [
  | threw ↦ none
  | returned accounts ↦ first_uri accounts
]

abbrev pub metadata_at : SolanaRpc → Text → Text × Text
metadata_at rpc uri = elim (rpc.fetch_metadata uri) [
  | threw ↦ ([], [])
  | returned (symbol, name) ↦ (text_or symbol [], text_or name [])
]

-- The symbol and the name of a token, empty where they cannot be had.
unfoldable pub token_names : SolanaRpc → Text → Text × Text
unfolding get_mint_metadata_uri
token_names rpc mint = elim (get_mint_metadata_uri rpc mint) [
  | none ↦ ([], [])
  | some uri ↦ if truthy uri then metadata_at rpc uri else ([], [])
]

abbrev pub token_account : SolanaRpc → ParsedInfo → SolanaRawToken
token_account rpc info =
    let names = token_names rpc (text_or info.mint []) in
    record {
      mint = text_or info.mint [];
      amount = some (text_or info.amount (codes "0"));
      decimals = some (or_number info.decimals 0);
      symbol = some names.0;
      name = some names.1;
    }

abbrev pub owned_nft : OwnedNft → SolanaRawNft
owned_nft n = record {
  mint = n.address;
  name = n.name;
  image = n.image_url;
  collection_name = n.collection_name;
}

unfoldable pub solana_raw_balances : SolanaRpc → Text → Reply SolanaRaw
solana_raw_balances rpc address = elim (rpc.get_balance address) [
  | threw ↦ threw
  | returned lamports ↦ elim (rpc.token_accounts address) [
    | threw ↦ threw
    | returned accounts ↦ elim (rpc.get_nfts address) [
      | threw ↦ threw
      | returned nfts ↦ returned (record {
        sol_balance = show lamports;
        token_accounts = map (token_account rpc) accounts;
        nfts = map owned_nft nfts;
      })
    ]
  ]
]

unfoldable pub solana_raw_gas_price : SolanaRpc → Reply ℕ
solana_raw_gas_price rpc = rpc.lamports_per_signature

unfoldable pub solana_raw_estimate : SolanaRpc → Text → Reply ℕ
solana_raw_estimate rpc message = elim (rpc.simulate message) [
  | threw ↦ threw
  | returned units ↦ returned (or_number units 0)
]
