-- ===== src/EvmChain.antt =====
-- chains/services/core/abstract-evm-chain.service.ts: the chain service of the EVM chains. A call of
-- `getBalances` runs up to the provider's answer (`begin_balances`) and from there on
-- (`finish_balances`); between the two, other calls run on the same service. `is_address` is that of
-- ethers; the provider factory, which the services share, is a part of the state.
pub mod Requests
pub mod Overlapped
pub mod Quotes
pub mod Quoted
pub mod Tests
use onekey_balance_kit.Base.{
  ℕ, ◌/◌, Bool, true, false, ◌&&◌, not, Option, none, some, List, [], ◌∷◌, Text, codes, truthy,
  starts_with, length, map, nat_beq, if◌then◌else◌, find_if,
}
use onekey_balance_kit.Cache.{Reply, returned, threw}
use onekey_balance_kit.Chains.{
  ChainName, BaseChainInfo, EvmChainInfo, value, all_chains, chain_info_map, evm_chain_info_map,
}
use onekey_balance_kit.Db.{or_number}
use onekey_balance_kit.ProviderApi.{
  NetworkType, mainnet, testnet, TokenBalance, NftBalance, BalancesResponse, ProviderApi, text_or,
  then_get,
}
use onekey_balance_kit.ProviderFactory.{Nest, Factory, Outcome, found, failed, get_evm_provider}

pub record EvmChainService (C I : Type 0) : Type 0 where
  pub evm_chain : ChainName
  pub current_chain_id : ℕ
  pub default_provider : Option Text
  pub factory : Factory C I

pub record EvmNativeBalance (U : Type 0) : Type 0 where
  pub symbol : Text
  pub decimals : ℕ
  pub balance : Text
  pub usd : U

pub record EvmFungible (U : Type 0) : Type 0 where
  pub mint : Text
  pub symbol : Text
  pub decimals : ℕ
  pub balance : Text
  pub usd : U

pub record EvmNft : Type 0 where
  pub mint : Text
  pub token_id : Text
  pub collection : Text
  pub name : Text
  pub image : Text

-- The answer of `getBalances`; `U` is the type of prices.
pub record EvmBalances (U : Type 0) : Type 0 where
  pub chain_id : ℕ
  pub native_balance : EvmNativeBalance U
  pub fungibles : List (EvmFungible U)
  pub nfts : List EvmNft
  pub updated_at : ℕ

abbrev pub get_chain_info_by_chain_id : ℕ → Option BaseChainInfo
get_chain_info_by_chain_id chain_id =
    find_if (λ info. nat_beq info.id chain_id) (map chain_info_map all_chains)

module _ {C I : Type 0} where
  unfoldable pub set_chain_id : ℕ → EvmChainService C I → EvmChainService C I
  set_chain_id chain_id s = record s { current_chain_id = chain_id }

  unfoldable pub is_testnet : EvmChainService C I → Bool
  is_testnet s = elim (get_chain_info_by_chain_id s.current_chain_id) [
    | none ↦ false
    | some info ↦ not info.is_mainnet
  ]

  -- `this.meta`.
  abbrev pub meta : EvmChainService C I → Option EvmChainInfo
  meta s = evm_chain_info_map s.evm_chain

  unfoldable pub get_default_chain_id : EvmChainService C I → ℕ
  get_default_chain_id s =
      or_number (elim (meta s) [ none ↦ none | some info ↦ some info.base.id ]) 1

  unfoldable pub get_chain_name : EvmChainService C I → Text
  get_chain_name s = elim (get_chain_info_by_chain_id s.current_chain_id) [
    | some info ↦ info.display
    | none ↦
        text_or (elim (meta s) [ none ↦ none | some info ↦ some info.base.display ])
          (value s.evm_chain)
  ]

  abbrev meta_symbol : EvmChainService C I → Text
  meta_symbol s = elim (meta s) [ none ↦ [] | some info ↦ info.symbol ]

  unfoldable pub get_chain_symbol : EvmChainService C I → Text
  get_chain_symbol s = elim (get_chain_info_by_chain_id s.current_chain_id) [
    | none ↦ meta_symbol s
    | some info ↦ elim (evm_chain_info_map info.name) [
      | none ↦ meta_symbol s
      | some evm ↦ evm.symbol
    ]
  ]

  -- The name that the provider is given.
  abbrev pub current_chain_name : EvmChainService C I → ChainName
  current_chain_name s = elim (get_chain_info_by_chain_id s.current_chain_id) [
    | some info ↦ info.name
    | none ↦ s.evm_chain
  ]

  abbrev pub network_type : EvmChainService C I → NetworkType
  network_type s = if is_testnet s then testnet else mainnet

-- The two methods that answer with sample data.
unfoldable pub get_address_transaction_hashes : (Text → Bool) → Text → Reply (List Text)
get_address_transaction_hashes is_address address =
    if is_address address then returned (codes "0xsample1" ∷ codes "0xsample2" ∷ []) else threw

pub record TransactionDetails : Type 0 where
  pub hash : Text
  pub from : Text
  pub to : Text
  pub value : Text

unfoldable pub get_transaction_details : Text → Reply TransactionDetails
get_transaction_details hash =
    if starts_with hash (codes "0x") && nat_beq (length hash) 66
    then returned (record {
      hash = hash;
      from = codes "0xsender";
      to = codes "0xreceiver";
      value = codes "1000000000000000000";
    })
    else threw

-- What is asked of a provider.
pub record Question (I : Type 0) : Type 0 where
  pub provider : I
  pub address : Text
  pub network : NetworkType
  pub chain_name : ChainName

-- A call that has thrown, or waits for a provider.
pub data Started (I : Type 0) : Type 0 where
  rejected : Started I
  asking : Question I → Started I

abbrev pub selected_provider : Option Text → Option Text → Text
selected_provider provider_type default_provider =
    text_or provider_type (text_or default_provider (codes "alchemy"))

module _ {C I : Type 0} (nest : Nest C I) (api : ProviderApi I) (is_address : Text → Bool) where
  -- The provider of the current chain, if there is one and it is supported.
  unfoldable pub ask_provider : Text → Text → EvmChainService C I → Started I × EvmChainService C I
  ask_provider address provider s =
      let (outcome, factory) = get_evm_provider nest s.current_chain_id (some provider) s.factory in
      let s' = record s { factory = factory } in
      elim outcome [
        | failed e ↦ (rejected, s')
        | found i ↦
            if api.is_supported i
            then (
              asking (record {
                provider = i;
                address = address;
                network = network_type s;
                chain_name = current_chain_name s;
              }),
              s',
            )
            else (rejected, s')
      ]

  abbrev pub with_chain_id : Option ℕ → EvmChainService C I → EvmChainService C I
  with_chain_id none s = s
  with_chain_id (some n) s = set_chain_id n s

  unfoldable pub begin_balances :
      Text → Option ℕ → Option Text → EvmChainService C I → Started I × EvmChainService C I
  unfolding ask_provider
  begin_balances address chain_id provider_type s =
      let s' = with_chain_id chain_id s in
      if is_address address
      then ask_provider address (selected_provider provider_type s'.default_provider) s'
      else (rejected, s')

abbrev pub fungible : {U : Type 0} → U → TokenBalance → EvmFungible U
fungible zero_usd t = record {
  mint = t.mint;
  symbol = text_or (then_get t.token_metadata (λ m. m.symbol)) (codes "UNKNOWN");
  decimals = or_number (then_get t.token_metadata (λ m. m.decimals)) 18;
  balance = t.balance;
  usd = zero_usd;
}

abbrev pub nft : NftBalance → EvmNft
nft n = record {
  mint = n.mint;
  token_id = text_or n.token_id (codes "0");
  collection =
      text_or (then_get n.token_metadata (λ m. m.collection_name)) (codes "Unknown Collection");
  name = text_or (then_get n.token_metadata (λ m. m.name)) (codes "Unknown NFT");
  image = text_or (then_get n.token_metadata (λ m. m.image)) [];
}

module _ {C I U : Type 0} (zero_usd : U) where
  -- The provider's answer in the standard format, in the state that the service has by then.
  unfoldable pub finish_balances :
      Reply BalancesResponse → ℕ → EvmChainService C I → Reply (EvmBalances U)
  finish_balances threw now s = threw
  finish_balances (returned b) now s = returned (record {
    chain_id = s.current_chain_id;
    native_balance = record {
      symbol = text_or (some (get_chain_symbol s)) (codes "UNKNOWN");
      decimals = or_number (elim (meta s) [ none ↦ none | some info ↦ some info.decimals ]) 18;
      balance = b.native_balance;
      usd = zero_usd;
    };
    fungibles = map (fungible zero_usd) b.tokens;
    nfts = map nft b.nfts;
    updated_at = now / 1000;
  })

module _ {C I U : Type 0} (nest : Nest C I) (api : ProviderApi I) (is_address : Text → Bool)
    (zero_usd : U) where
  -- `getBalances`, where nothing else runs in between.
  unfoldable pub get_balances :
      Text
      → Option ℕ
      → Option Text
      → ℕ
      → EvmChainService C I
      → Reply (EvmBalances U) × EvmChainService C I
  unfolding begin_balances finish_balances
  get_balances address chain_id provider_type now s =
      let (started, s') = begin_balances nest api is_address address chain_id provider_type s in
      elim started [
        | rejected ↦ (threw, s')
        | asking q ↦ (
          finish_balances zero_usd (api.get_balances q.provider q.address q.network q.chain_name)
              now s',
          s',
        )
      ]
