-- ===== src/EvmChain/Requests.antt =====
-- `getBalances` of chains/services/core/abstract-evm-chain.service.ts, alone on its service.
use onekey_balance_kit.Base.{
  List, map, none, [], ◌/◌, sym, then_get, Each, Each-map, ℕ, ◌≡◌, refl, ◌⊎◌, inl, inr, ap, ◌∙◌,
  Bool, true, false, Option, some, Text, codes, truthy, if◌then◌else◌, arith, Bool-cases,
}
use onekey_balance_kit.Cache.{Reply, returned, threw}
use onekey_balance_kit.Chains.{
  ChainName, ethereum, solana, polygon, bsc, ethereum_goerli, ethereum_sepolia, solana_devnet,
  bsc_testnet, polygon_mumbai, EvmChainInfo, chain_info_map, evm_chain_info_map,
}
use onekey_balance_kit.Db.{or_number}
use onekey_balance_kit.EvmChain.{
  EvmFungible, EvmNft, fungible, nft, meta, EvmChainService, EvmBalances, Question, rejected,
  asking, get_chain_info_by_chain_id, set_chain_id, is_testnet, get_chain_symbol, network_type,
  current_chain_name, selected_provider, ask_provider, begin_balances, finish_balances,
  get_balances,
}
use onekey_balance_kit.ProviderApi.{
  NetworkType, mainnet, testnet, TokenBalance, NftBalance, BalancesResponse, ProviderApi, text_or,
}
use onekey_balance_kit.ProviderFactory.{Nest, Outcome, Failure, found, failed, get_evm_provider}

-- The scan by chain ID finds the chain of an ID.
pub get_chain_info_by_chain_id_lem :
    (chain : ChainName)
    → get_chain_info_by_chain_id (chain_info_map chain).id ≡ some (chain_info_map chain)
get_chain_info_by_chain_id_lem ethereum = refl
get_chain_info_by_chain_id_lem solana = refl
get_chain_info_by_chain_id_lem polygon = refl
get_chain_info_by_chain_id_lem bsc = refl
get_chain_info_by_chain_id_lem ethereum_goerli = refl
get_chain_info_by_chain_id_lem ethereum_sepolia = refl
get_chain_info_by_chain_id_lem solana_devnet = refl
get_chain_info_by_chain_id_lem bsc_testnet = refl
get_chain_info_by_chain_id_lem polygon_mumbai = refl

name-chain_info_map : (chain : ChainName) → (chain_info_map chain).name ≡ chain
name-chain_info_map ethereum = refl
name-chain_info_map solana = refl
name-chain_info_map polygon = refl
name-chain_info_map bsc = refl
name-chain_info_map ethereum_goerli = refl
name-chain_info_map ethereum_sepolia = refl
name-chain_info_map solana_devnet = refl
name-chain_info_map bsc_testnet = refl
name-chain_info_map polygon_mumbai = refl

pub Outcome-cases :
    {I : Type 0} (o : Outcome I) → ((e : Failure) × (o ≡ failed e)) ⊎ ((i : I) × (o ≡ found i))
Outcome-cases (found i) = inr (i, refl)
Outcome-cases (failed e) = inl (e, refl)

-- The network of a chain.
abbrev pub network_of : ChainName → NetworkType
network_of chain = if (chain_info_map chain).is_mainnet then mainnet else testnet

module _ {C I : Type 0} (chain : ChainName) (s : EvmChainService C I) where
  pub on_chain_name : s.current_chain_id ≡ (chain_info_map chain).id → current_chain_name s ≡ chain
  on_chain_name e =
      rw (e, current_chain_name, get_chain_info_by_chain_id_lem chain) (name-chain_info_map chain)

  pub on_network :
      s.current_chain_id ≡ (chain_info_map chain).id → network_type s ≡ network_of chain
  unfolding is_testnet
  on_network e = rw (e, get_chain_info_by_chain_id_lem chain, is_testnet) (ground arith)

  on_symbol :
      (info : EvmChainInfo)
      → evm_chain_info_map chain ≡ some info
      → s.current_chain_id ≡ (chain_info_map chain).id
      → get_chain_symbol s ≡ info.symbol
  unfolding get_chain_symbol
  on_symbol info known e =
      rw
        (
          e,
          get_chain_info_by_chain_id_lem chain,
          name-chain_info_map chain,
          known,
          get_chain_symbol,
        )
        refl

-- The tokens of an answer are those of the reply, in order, with their balances; the metadata of the reply
-- is kept where it has any.
pub record IsFungible {U : Type 0} (t : TokenBalance) (f : EvmFungible U) : Type 0 where
  pub same_mint : f.mint ≡ t.mint
  pub same_balance : f.balance ≡ t.balance
  pub of_symbol : f.symbol ≡ text_or (then_get t.token_metadata (λ m. m.symbol)) (codes "UNKNOWN")
  pub of_decimals : f.decimals ≡ or_number (then_get t.token_metadata (λ m. m.decimals)) 18

pub record IsNft (n : NftBalance) (e : EvmNft) : Type 0 where
  pub same_mint : e.mint ≡ n.mint
  pub of_id : e.token_id ≡ text_or n.token_id (codes "0")
  pub of_name : e.name ≡ text_or (then_get n.token_metadata (λ m. m.name)) (codes "Unknown NFT")
  pub of_image : e.image ≡ text_or (then_get n.token_metadata (λ m. m.image)) []

fungibles-Each :
    {U : Type 0} (zero_usd : U) (ts : List TokenBalance)
    → Each IsFungible ts (map (fungible zero_usd) ts)
fungibles-Each zero_usd ts =
    Each-map IsFungible (fungible zero_usd)
      (λ t. record { same_mint = refl; same_balance = refl; of_symbol = refl; of_decimals = refl })
      ts

nfts-Each : (ns : List NftBalance) → Each IsNft ns (map nft ns)
nfts-Each ns =
    Each-map IsNft nft
      (λ n. record { same_mint = refl; of_id = refl; of_name = refl; of_image = refl }) ns

module _ {C I U : Type 0} (nest : Nest C I) (api : ProviderApi I) (is_address : Text → Bool)
    (zero_usd : U) where
  -- What an answer is made of: a valid address, and the reply that a supported provider gave for it on
  -- the chain and its network.
  pub record IsAnswer (chain : ChainName) (address : Text) (symbol : Text) (r : EvmBalances U)
      : Type 0 where
    pub valid : is_address address ≡ true
    pub provider : I
    pub supported : api.is_supported provider ≡ true
    pub reply : BalancesResponse
    pub replied : api.get_balances provider address (network_of chain) chain ≡ returned reply
    pub chain_id : r.chain_id ≡ (chain_info_map chain).id
    pub of_symbol : r.native_balance.symbol ≡ symbol
    pub of_balance : r.native_balance.balance ≡ reply.native_balance
    pub of_tokens : Each IsFungible reply.tokens r.fungibles
    pub of_nfts : Each IsNft reply.nfts r.nfts

  record IsAsked (address : Text) (s : EvmChainService C I) (q : Question I) : Type 0 where
    supported : api.is_supported q.provider ≡ true
    of_address : q.address ≡ address
    of_chain : q.chain_name ≡ current_chain_name s
    of_network : q.network ≡ network_type s

  ask_provider-IsAsked :
      (address provider : Text) (s : EvmChainService C I)
      → let r = ask_provider nest api is_address address provider s in
        (r.1.current_chain_id ≡ s.current_chain_id)
        × ((r.0 ≡ rejected) ⊎ ((q : Question I) × (r.0 ≡ asking q) × IsAsked address s q))
  unfolding ask_provider
  ask_provider-IsAsked address provider s =
      elim (Outcome-cases (get_evm_provider nest s.current_chain_id (some provider) s.factory).0) [
        | inl (e, none_found) ↦ rw (none_found, ask_provider) (refl, inl refl)
        | inr (i, there) ↦ elim (Bool-cases (api.is_supported i)) [
          | inr unsupported ↦ rw (there, unsupported, ask_provider) (refl, inl refl)
          | inl ready ↦
              rw (there, ready, ask_provider)
                (
                  refl,
                  inr (
                    _,
                    refl,
                    record {
                      supported = ready;
                      of_address = refl;
                      of_chain = refl;
                      of_network = refl;
                    },
                  ),
                )
        ]
      ]

  abbrev answer_of : BalancesResponse → ℕ → EvmChainService C I → EvmBalances U
  answer_of b now s = record {
    chain_id = s.current_chain_id;
    native_balance = record {
      symbol = text_or (some (get_chain_symbol s)) (codes "UNKNOWN");
      decimals = or_number (elim (meta s) [ none ↦ none | some info ↦ some info.decimals ]) 18;
      balance = b.native_balance;
      usd = zero_usd;
    };
    fungibles = map (fungible zero_usd) b.tokens;
    nfts = map nft b.nfts;
    updated_at = now / 1000;
  }

  finish_balances_lem :
      (reply : Reply BalancesResponse) (now : ℕ) (s : EvmChainService C I) (r : EvmBalances U)
      → finish_balances zero_usd reply now s ≡ returned r
      → (b : BalancesResponse) × (reply ≡ returned b)
        × (r.chain_id ≡ s.current_chain_id)
        × (r.native_balance.symbol ≡ text_or (some (get_chain_symbol s)) (codes "UNKNOWN"))
        × (r.native_balance.balance ≡ b.native_balance)
        × Each IsFungible b.tokens r.fungibles
        × Each IsNft b.nfts r.nfts
  unfolding finish_balances
  finish_balances_lem threw now s r e = absurd (ground (arith, e))
  finish_balances_lem (returned b) now s r e =
      let is : answer_of b now s ≡ r = ground (arith, e) in
      rw (← is) (b, refl, refl, refl, refl, fungibles-Each zero_usd b.tokens, nfts-Each b.nfts)

  begin_valid :
      (address : Text) (id : ℕ) (provider : Option Text) (s : EvmChainService C I)
      → is_address address ≡ true
      → begin_balances nest api is_address address (some id) provider s
        ≡ ask_provider nest api is_address address
            (selected_provider provider s.default_provider)
            (set_chain_id id s)
  unfolding begin_balances set_chain_id
  begin_valid address id provider s valid = rw (valid, begin_balances) refl

  begin_invalid :
      (address : Text) (id : ℕ) (provider : Option Text) (s : EvmChainService C I)
      → is_address address ≡ false
      → begin_balances nest api is_address address (some id) provider s
        ≡ (rejected, set_chain_id id s)
  unfolding begin_balances set_chain_id
  begin_invalid address id provider s invalid = rw (invalid, begin_balances) refl

  -- A call that names a chain by its ID and answers has a valid address. The answer has the chain's ID and
  -- symbol, and the balance, the tokens and the NFTs of the reply that a supported provider gives for
  -- this address on this chain and its network. No other call runs on the service in between.
  pub get_balances-IsAnswer :
      (chain : ChainName) (info : EvmChainInfo) (address : Text) (provider : Option Text) (now : ℕ)
      (s : EvmChainService C I) (r : EvmBalances U)
      → evm_chain_info_map chain ≡ some info
      → truthy info.symbol ≡ true
      → let id = some (chain_info_map chain).id in
        (get_balances nest api is_address zero_usd address id provider now s).0 ≡ returned r
        → IsAnswer chain address info.symbol r
  unfolding get_balances set_chain_id
  get_balances-IsAnswer chain info address provider now s r known named e =
      let id = (chain_info_map chain).id in
      let s' = set_chain_id id s in
      let p = selected_provider provider s'.default_provider in
      elim (Bool-cases (is_address address)) [
        | inr invalid ↦ absurd (
            let thrown : threw ≡ returned r =
              rw (get_balances, begin_invalid address id provider s invalid) at e in
            ground (arith, thrown))
        | inl valid ↦ elim (ask_provider-IsAsked address p s').1 [
          | inl none_asked ↦ absurd (
              let thrown : threw ≡ returned r =
                rw (get_balances, begin_valid address id provider s valid, none_asked) at e in
              ground (arith, thrown))
          | inr (q, asked, facts) ↦
              let made = rw (get_balances, begin_valid address id provider s valid, asked) at e in
              let t = (begin_balances nest api is_address address (some id) provider s).1 in
              let (b, replied, of_id, of_symbol, native, tokens, nfts) =
                finish_balances_lem _ now t r made in
              let here =
                ap (λ x. x.1.current_chain_id) (begin_valid address id provider s valid)
                ∙ (ask_provider-IsAsked address p s').0 in
              record {
                valid = valid;
                provider = q.provider;
                supported = facts.supported;
                reply = b;
                replied =
                    ap (λ c. api.get_balances q.provider address (network_of chain) c)
                      (sym (facts.of_chain ∙ on_chain_name chain s' refl))
                    ∙ ap (λ n. api.get_balances q.provider address n q.chain_name)
                        (sym (facts.of_network ∙ on_network chain s' refl))
                    ∙ ap (λ a. api.get_balances q.provider a q.network q.chain_name)
                        (sym facts.of_address)
                    ∙ replied;
                chain_id = of_id ∙ here;
                of_symbol =
                    of_symbol
                    ∙ ap (λ x. text_or (some x) (codes "UNKNOWN"))
                        (on_symbol chain t info known here)
                    ∙ rw named refl;
                of_balance = native;
                of_tokens = tokens;
                of_nfts = nfts;
              }
        ]
      ]
