-- ===== src/ProviderFactory/Names.antt =====
-- How providers/provider.factory.ts resolves names of chains and chain IDs.
use onekey_balance_kit.Base.{
  ℕ, ◌≡◌, ◌≢◌, refl, ◌⊎◌, inl, inr, Option, none, Text, to_lower, get, Option-cases,
}
use onekey_balance_kit.Chains.{
  ChainName, value, of_value, coin_symbol_to_chain_map, chain_info_map, get_chain_name_by_chain_id,
}
use onekey_balance_kit.Chains.Lookup.{
  of_value_iff, coin_symbol_to_chain_map_iff, get_chain_name_by_chain_id_iff, IsSymbolOf,
}
use onekey_balance_kit.ProviderFactory.{
  Nest, Factory, failed, no_chain, normalize_blockchain_type, get_provider, get_evm_provider,
}

-- A name resolves, whatever the case of its letters: that of a chain to that chain, the symbol of a
-- main net to that main net, and any other name to itself in small letters.
pub normalize_blockchain_type_cases :
    (s : Text)
    → ((c : ChainName) × (normalize_blockchain_type s ≡ value c)
        × ((to_lower s ≡ value c) ⊎ IsSymbolOf (to_lower s) c))
      ⊎ ((normalize_blockchain_type s ≡ to_lower s)
          × (of_value (to_lower s) ≡ none)
          × (get (to_lower s) coin_symbol_to_chain_map ≡ none))
unfolding normalize_blockchain_type
normalize_blockchain_type_cases s = elim (Option-cases (of_value (to_lower s))) [
  | inr (c, e) ↦ let same = (of_value_iff (to_lower s) c).0 e in inl (c, rw e same, inl same)
  | inl absent ↦ elim (Option-cases (get (to_lower s) coin_symbol_to_chain_map)) [
    | inl unknown ↦ inr (rw (absent, unknown) refl, absent, unknown)
    | inr (c, e) ↦
        inl (c, rw (absent, e) refl, inr ((coin_symbol_to_chain_map_iff (to_lower s) c).0 e))
  ]
]

module _ {C I : Type 0} (nest : Nest C I) where
  -- For the ID of a chain the EVM provider is the provider of that chain; for any other number there
  -- is none, and nothing changes.
  pub get_evm_provider_cases :
      (n : ℕ) (provider : Option Text) (s : Factory C I)
      → ((c : ChainName) × (n ≡ (chain_info_map c).id)
          × (get_evm_provider nest n provider s ≡ get_provider nest (value c) provider s))
        ⊎ (((c : ChainName) → n ≢ (chain_info_map c).id)
            × (get_evm_provider nest n provider s ≡ (failed no_chain, s)))
  unfolding get_evm_provider
  get_evm_provider_cases n provider s = elim (Option-cases (get_chain_name_by_chain_id n)) [
    | inl absent ↦ inr (
      λ c e. let found = (get_chain_name_by_chain_id_iff n c).1 e in cc,
      rw (absent, get_evm_provider) refl,
    )
    | inr (c, e) ↦ inl (c, (get_chain_name_by_chain_id_iff n c).0 e, rw (e, get_evm_provider) refl)
  ]
