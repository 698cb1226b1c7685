-- ===== src/EvmChain/Quoted.antt =====
-- What prices change in the balances of an EVM chain.
use onekey_balance_kit.Base.{
  ◌≡◌, refl, ◌⊎◌, inl, inr, true, false, List, [], ◌∷◌, map, Bool-cases, Map,
}
use onekey_balance_kit.Cache.{Reply-cases, returned, threw}
use onekey_balance_kit.EvmChain.Quotes.{
  Prices, zero_address, mints, quote_fungible, quoted, should_quote, quote_balances,
}
use onekey_balance_kit.EvmChain.{EvmChainService, EvmBalances, EvmFungible}

module _ {U : Type 0} (zero_usd : U) where
  -- Balances without their prices.
  abbrev erase_fungible : EvmFungible U → EvmFungible U
  erase_fungible f = record f { usd = zero_usd }

  abbrev pub unpriced : EvmBalances U → EvmBalances U
  unpriced b = record b {
    native_balance = record b.native_balance { usd = zero_usd };
    fungibles = map erase_fungible b.fungibles;
  }

module _ {U : Type 0} (p : Prices U) where
  erase-quote :
      (prices : Map U) (fs : List (EvmFungible U))
      → map (erase_fungible p.zero_usd) (map (quote_fungible p prices) fs)
        ≡ map (erase_fungible p.zero_usd) fs
  erase-quote prices [] = refl
  erase-quote prices (f ∷ fs) = rw (erase-quote prices fs) refl

module _ {C I U : Type 0} (p : Prices U) where
  -- Balances with prices are the balances of the chain but for the prices: a test net's are unchanged, and
  -- on a main net the answer is lost where the price service fails.
  pub quote_balances_cases :
      (b : EvmBalances U) (s : EvmChainService C I)
      → let r = quote_balances p (returned b) s in
        ((should_quote s ≡ false) × (r ≡ returned b))
        ⊎ ((should_quote s ≡ true)
            × (((p.get_prices s.current_chain_id (zero_address ∷ mints b.fungibles) ≡ threw)
                  × (r ≡ threw))
                ⊎ ((q : EvmBalances U) × (r ≡ returned q)
                    × (unpriced p.zero_usd q ≡ unpriced p.zero_usd b))))
  unfolding quote_balances quoted
  quote_balances_cases b s = elim (Bool-cases (should_quote s)) [
    | inr skipped ↦ rw (skipped, quote_balances) (inl (refl, refl))
    | inl quoted_net ↦
        elim (Reply-cases (p.get_prices s.current_chain_id (zero_address ∷ mints b.fungibles))) [
          | inl failed ↦ rw (quoted_net, failed, quote_balances) (inr (refl, inl (refl, refl)))
          | inr (prices, known) ↦
              rw (quoted_net, known, quote_balances)
                (inr
                  (refl, inr (quoted p prices b, refl, rw (erase-quote p prices b.fungibles) refl)))
        ]
  ]
