-- ===== src/Chains/Lookup.antt =====
-- The lookups of chains/constants/index.ts: by name, by chain ID, by network and by coin symbol.
use onekey_balance_kit.Base.{
  ℕ, ◌≡◌, refl, sym, ap, ◌∙◌, ◌↔◌, inl, inr, true, some, List, [], ◌∷◌, Text, to_lower, get, set,
  get-All, All, arith, Bool-cases, nat_beq, nat_beq_iff, text_beq, text_beq_iff, find_if_sound, any,
  Map,
}
use onekey_balance_kit.Chains.{
  ChainName, ethereum, solana, polygon, bsc, ethereum_goerli, ethereum_sepolia, solana_devnet,
  bsc_testnet, polygon_mumbai, value, all_chains, of_value, chain_info_map, network_id_to_chain_map,
  coin_symbol_to_chain_map, get_chain_name_by_chain_id,
}

of_value-value : (c : ChainName) → of_value (value c) ≡ some c
unfolding of_value
of_value-value ethereum = refl
of_value-value solana = refl
of_value-value polygon = refl
of_value-value bsc = refl
of_value-value ethereum_goerli = refl
of_value-value ethereum_sepolia = refl
of_value-value solana_devnet = refl
of_value-value bsc_testnet = refl
of_value-value polygon_mumbai = refl

value-of_value : (s : Text) (c : ChainName) → of_value s ≡ some c → value c ≡ s
unfolding of_value
value-of_value s c e =
    (text_beq_iff (value c) s).0 (find_if_sound (λ x. text_beq (value x) s) all_chains c e)

-- A text is the name of a chain exactly when the test for a valid name finds that chain.
pub of_value_iff : (s : Text) (c : ChainName) → (of_value s ≡ some c) ↔ (s ≡ value c)
of_value_iff s c = (λ e. sym (value-of_value s c e), λ e. ap of_value e ∙ of_value-value c)

by_id-id : (c : ChainName) → get_chain_name_by_chain_id (chain_info_map c).id ≡ some c
unfolding get_chain_name_by_chain_id
by_id-id ethereum = refl
by_id-id solana = refl
by_id-id polygon = refl
by_id-id bsc = refl
by_id-id ethereum_goerli = refl
by_id-id ethereum_sepolia = refl
by_id-id solana_devnet = refl
by_id-id bsc_testnet = refl
by_id-id polygon_mumbai = refl

id-by_id :
    (n : ℕ) (c : ChainName) → get_chain_name_by_chain_id n ≡ some c → (chain_info_map c).id ≡ n
unfolding get_chain_name_by_chain_id
id-by_id n c e =
    (nat_beq_iff _ n).0 (find_if_sound (λ x. nat_beq (chain_info_map x).id n) all_chains c e)

-- The scan for a chain ID returns a chain exactly when the ID is that chain's; so the IDs of the
-- table are distinct, and the scan fails on every other number.
pub get_chain_name_by_chain_id_iff :
    (n : ℕ) (c : ChainName) → (get_chain_name_by_chain_id n ≡ some c) ↔ (n ≡ (chain_info_map c).id)
get_chain_name_by_chain_id_iff n c =
    (λ e. sym (id-by_id n c e), λ e. ap get_chain_name_by_chain_id e ∙ by_id-id c)

abbrev IsIdentified : Text × ChainName → Type 0
IsIdentified (network, c) = (chain_info_map c).network_identifier ≡ some network

networks-IsIdentified : All IsIdentified network_id_to_chain_map
unfolding network_id_to_chain_map set
networks-IsIdentified = ground arith

network_known :
    (c : ChainName) (network : Text)
    → (chain_info_map c).network_identifier ≡ some network
    → get network network_id_to_chain_map ≡ some c
unfolding network_id_to_chain_map get set
network_known ethereum network e = ground arith
network_known solana network e = ground arith
network_known polygon network e = ground arith
network_known bsc network e = ground arith
network_known ethereum_goerli network e = ground arith
network_known ethereum_sepolia network e = ground arith
network_known solana_devnet network e = ground arith
network_known bsc_testnet network e = ground arith
network_known polygon_mumbai network e = ground arith

-- The derived map sends a network identifier to a chain exactly when the table gives that chain
-- that identifier.
pub network_id_to_chain_map_iff :
    (c : ChainName) (network : Text)
    → (get network network_id_to_chain_map ≡ some c)
      ↔ ((chain_info_map c).network_identifier ≡ some network)
network_id_to_chain_map_iff c network = (
  get-All IsIdentified network c network_id_to_chain_map networks-IsIdentified,
  network_known c network,
)

abbrev pub IsSymbolOf : Text → ChainName → Type 0
IsSymbolOf s c =
    ((chain_info_map c).is_mainnet ≡ true)
    × (any (λ t. text_beq t s) (value c ∷ (chain_info_map c).coin_symbols) ≡ true)

coins-IsSymbolOf : All (λ e. IsSymbolOf e.0 e.1) coin_symbol_to_chain_map
unfolding coin_symbol_to_chain_map set to_lower
coins-IsSymbolOf = ground arith

get-any :
    (m : Map ChainName) (c : ChainName) (s : Text) (ts : List Text)
    → any (λ t. text_beq t s) ts ≡ true
    → All (λ t. get t m ≡ some c) ts
    → get s m ≡ some c
get-any m c s [] h a = cc
get-any m c s (t ∷ ts) h a = elim (Bool-cases (text_beq t s)) [
  | inl same ↦ rw (← (text_beq_iff t s).0 same) a.0
  | inr other ↦ get-any m c s ts (rw other at h) a.1
]

symbols_known :
    (c : ChainName)
    → (chain_info_map c).is_mainnet ≡ true
    → All (λ t. get t coin_symbol_to_chain_map ≡ some c) (value c ∷ (chain_info_map c).coin_symbols)
unfolding coin_symbol_to_chain_map set to_lower get
symbols_known ethereum h = ground arith
symbols_known solana h = ground arith
symbols_known polygon h = ground arith
symbols_known bsc h = ground arith
symbols_known c h = cc

-- A coin symbol resolves to a chain exactly when that chain is a main net and the symbol is its name
-- or one of its listed symbols; so no two main nets share a symbol and no test net is ever found.
pub coin_symbol_to_chain_map_iff :
    (s : Text) (c : ChainName) → (get s coin_symbol_to_chain_map ≡ some c) ↔ IsSymbolOf s c
coin_symbol_to_chain_map_iff s c = (
  get-All (λ e. IsSymbolOf e.0 e.1) s c coin_symbol_to_chain_map coins-IsSymbolOf,
  λ h.
      get-any coin_symbol_to_chain_map c s (value c ∷ (chain_info_map c).coin_symbols) h.1
        (symbols_known c h.0),
)
