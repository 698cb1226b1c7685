-- ===== src/SolanaChain.antt =====
-- chains/services/solana: the chain service of Solana. `is_public_key` tells whether the constructor of
-- the SDK's `PublicKey` returns; the provider factory, which the services share, is a part of the
-- state.
pub mod Answered
pub mod Tests
use onekey_balance_kit.Base.{
  ℕ, ◌/◌, Bool, true, false, not, Option, none, some, List, [], ◌∷◌, Text, codes, map, nat_beq,
  if◌then◌else◌,
}
use onekey_balance_kit.Cache.{Reply, returned, threw}
use onekey_balance_kit.Chains.{ChainName, solana, value}
use onekey_balance_kit.Db.{or_number}
use onekey_balance_kit.EvmChain.{selected_provider}
use onekey_balance_kit.Portfolio.{TokenMetadata}
use onekey_balance_kit.ProviderApi.{
  NetworkType, mainnet, testnet, TokenBalance, NftMetadata, NftBalance, BalancesResponse,
  ProviderApi, text_or, then_get,
}
use onekey_balance_kit.ProviderFactory.{Nest, Factory, Outcome, found, failed, get_provider}

pub data SolanaCluster : Type 0 where
  mainnet_beta testnet_cluster devnet : SolanaCluster

pub record SolanaService (C I : Type 0) : Type 0 where
  pub current_chain_id : ℕ
  pub default_provider : Option Text
  pub factory : Factory C I

pub record SolanaNativeBalance (U : Type 0) : Type 0 where
  pub symbol : Text
  pub decimals : ℕ
  pub balance : Text
  pub usd : U

-- The answer of `getBalances`; `U` is the type of prices.
pub record SolanaBalances (U : Type 0) : Type 0 where
  pub cluster : SolanaCluster
  pub native_balance : SolanaNativeBalance U
  pub tokens : List TokenBalance
  pub nfts : List NftBalance
  pub updated_at : ℕ

-- The constructor, with the configured provider.
abbrev pub create_service : {C I : Type 0} → Option Text → Factory C I → SolanaService C I
create_service configured factory = record {
  current_chain_id = 101;
  default_provider = some (elim configured [ none ↦ codes "alchemy" | some p ↦ p ]);
  factory = factory;
}

module _ {C I : Type 0} where
  unfoldable pub set_chain_id : ℕ → SolanaService C I → SolanaService C I
  set_chain_id chain_id s = record s { current_chain_id = chain_id }

  unfoldable pub is_testnet : SolanaService C I → Bool
  is_testnet s = not (nat_beq s.current_chain_id 101)

  unfoldable pub get_chain_name : SolanaService C I → Text
  get_chain_name s =
      if nat_beq s.current_chain_id 103
      then codes "Solana Devnet"
      else if nat_beq s.current_chain_id 102
      then codes "Solana Testnet"
      else value solana

-- The tokens and the NFTs of the answer.
abbrev pub spl_token : TokenBalance → TokenBalance
spl_token t = record {
  mint = t.mint;
  balance = t.balance;
  token_metadata = some (record {
    symbol = some (text_or (then_get t.token_metadata (λ m. m.symbol)) (codes "UNKNOWN"));
    decimals = some (or_number (then_get t.token_metadata (λ m. m.decimals)) 9);
    name = some (text_or (then_get t.token_metadata (λ m. m.name)) (codes "Unknown Token"));
  });
}

abbrev pub spl_nft : NftBalance → NftBalance
spl_nft n = record {
  mint = n.mint;
  token_id = some (text_or n.token_id (codes "0"));
  token_metadata = some (record {
    name = some (text_or (then_get n.token_metadata (λ m. m.name)) (codes "Unknown NFT"));
    image = some (text_or (then_get n.token_metadata (λ m. m.image)) []);
    collection_name =
        some (
          text_or (then_get n.token_metadata (λ m. m.collection_name))
            (codes "Unknown Collection"));
  });
}

-- `isSuccess === false`.
abbrev pub is_failure : BalancesResponse → Bool
is_failure b = elim b.is_success [ none ↦ false | some success ↦ not success ]

abbrev pub with_chain_id : {C I : Type 0} → Option ℕ → SolanaService C I → SolanaService C I
with_chain_id none s = s
with_chain_id (some n) s = set_chain_id n s

module _ {U : Type 0} (zero_usd : U) where
  -- What is made of the provider's answer.
  unfoldable pub to_solana_balances :
      SolanaCluster → Reply BalancesResponse → ℕ → Reply (SolanaBalances U)
  to_solana_balances cluster threw now = threw
  to_solana_balances cluster (returned b) now =
      if is_failure b
      then threw
      else returned (record {
        cluster = cluster;
        native_balance = record {
          symbol = codes "SOL";
          decimals = 9;
          balance = b.native_balance;
          usd = zero_usd;
        };
        tokens = map spl_token b.tokens;
        nfts = map spl_nft b.nfts;
        updated_at = now / 1000;
      })

module _ {C I U : Type 0} (nest : Nest C I) (api : ProviderApi I) (is_public_key : Text → Bool)
    (zero_usd : U) where
  -- The answer of the provider that the factory has; every failure on the way throws in the end.
  unfoldable pub ask_solana_provider :
      Text → Text → ℕ → SolanaService C I → Reply (SolanaBalances U) × SolanaService C I
  unfolding to_solana_balances
  ask_solana_provider address provider now s =
      let cluster = if is_testnet s then testnet_cluster else mainnet_beta in
      let network = if is_testnet s then testnet else mainnet in
      let asked = get_provider nest (value solana) (some provider) s.factory in
      let s' : SolanaService C I = record s { factory = asked.1 } in
      elim asked.0 [
        | failed e ↦ (threw, s')
        | found i ↦
            if api.is_supported i
            then (
              to_solana_balances zero_usd cluster (api.get_balances i address network solana) now,
              s',
            )
            else (threw, s')
      ]

  unfoldable pub get_balances :
      Text
      → Option ℕ
      → Option Text
      → ℕ
      → SolanaService C I
      → Reply (SolanaBalances U) × SolanaService C I
  unfolding ask_solana_provider set_chain_id
  get_balances address chain_id provider_type now s =
      let s' = with_chain_id chain_id s in
      if is_public_key address
      then ask_solana_provider address (selected_provider provider_type s'.default_provider) now s'
      else (threw, s')
