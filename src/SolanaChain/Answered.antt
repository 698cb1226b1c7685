-- ===== src/SolanaChain/Answered.antt =====
-- When the Solana service answers, and with what.
use onekey_balance_kit.Base.{
  Each, then_get, text_or, ℕ, ◌/◌, codes, ◌≡◌, ◌↔◌, Bool, true, false, not, nat_beq, some, [], Text,
  map, if◌then◌else◌,
}
use onekey_balance_kit.Cache.{returned}
use onekey_balance_kit.Chains.{solana, value}
use onekey_balance_kit.Db.{or_number}
use onekey_balance_kit.ProviderApi.{
  NetworkType, mainnet, testnet, TokenBalance, NftBalance, BalancesResponse, ProviderApi,
}
use onekey_balance_kit.ProviderFactory.{Nest, found, get_provider}
use onekey_balance_kit.SolanaChain.{
  SolanaService, SolanaBalances, mainnet_beta, testnet_cluster, spl_token, spl_nft, is_failure,
  get_balances,
}

-- The tokens of an answer are those of the reply, in order, with their balances; the metadata of the reply
-- is kept where it has any.
pub record IsSplToken (t r : TokenBalance) : Type 0 where
  pub same_mint : r.mint ≡ t.mint
  pub same_balance : r.balance ≡ t.balance
  pub metadata :
      r.token_metadata
      ≡ some (record {
        symbol = some (text_or (then_get t.token_metadata (λ m. m.symbol)) (codes "UNKNOWN"));
        decimals = some (or_number (then_get t.token_metadata (λ m. m.decimals)) 9);
        name = some (text_or (then_get t.token_metadata (λ m. m.name)) (codes "Unknown Token"));
      })

pub record IsSplNft (n r : NftBalance) : Type 0 where
  pub same_mint : r.mint ≡ n.mint
  pub of_id : r.token_id ≡ some (text_or n.token_id (codes "0"))
  pub of_name :
      then_get r.token_metadata (λ m. m.name)
      ≡ some (text_or (then_get n.token_metadata (λ m. m.name)) (codes "Unknown NFT"))
  pub of_image :
      then_get r.token_metadata (λ m. m.image)
      ≡ some (text_or (then_get n.token_metadata (λ m. m.image)) [])

-- The network of a chain ID.
abbrev pub network_of : ℕ → NetworkType
network_of n = if nat_beq n 101 then mainnet else testnet

-- An answer is that of a supported provider of Solana to the address on the network of the chain ID.
pub record IsSolanaAnswer {C I U : Type 0} (nest : Nest C I) (api : ProviderApi I)
    (is_public_key : Text → Bool) (address : Text) (n : ℕ) (selected : Text) (s : SolanaService C I)
    (r : SolanaBalances U) : Type 0 where
  pub valid : is_public_key address ≡ true
  pub provider : I
  pub chosen : (get_provider nest (value solana) (some selected) s.factory).0 ≡ found provider
  pub supported : api.is_supported provider ≡ true
  pub reply : BalancesResponse
  pub replied : api.get_balances provider address (network_of n) solana ≡ returned reply
  pub succeeded : is_failure reply ≡ false
  pub on_mainnet : (r.cluster ≡ mainnet_beta) ↔ (n ≡ 101)
  pub balance : r.native_balance.balance ≡ reply.native_balance
  pub tokens : Each IsSplToken reply.tokens r.tokens
  pub nfts : Each IsSplNft reply.nfts r.nfts

module _ {C I U : Type 0} (nest : Nest C I) (api : ProviderApi I) (is_public_key : Text → Bool)
    (zero_usd : U) where
  abbrev solana_balances : ℕ → BalancesResponse → ℕ → SolanaBalances U
  solana_balances n b now = record {
    cluster = if not (nat_beq n 101) then testnet_cluster else mainnet_beta;
    native_balance = record {
      symbol = codes "SOL";
      decimals = 9;
      balance = b.native_balance;
      usd = zero_usd;
    };
    tokens = map spl_token b.tokens;
    nfts = map spl_nft b.nfts;
    updated_at = now / 1000;
  }
