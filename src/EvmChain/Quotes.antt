-- ===== src/EvmChain/Quotes.antt =====
-- chains/services/core/priceable-evm-chain.service.ts: balances with prices. The price service is an
-- argument, as are the floating-point numbers `U`: `amount` is `price * parseFloat(balance) / 10 **
-- decimals`.
use onekey_balance_kit.Base.{
  ℕ, Bool, not, Option, List, [], ◌∷◌, Text, codes, to_lower, map, or_else, if◌then◌else◌, Map, get,
}
use onekey_balance_kit.Cache.{Reply, returned, threw}
use onekey_balance_kit.EvmChain.{
  EvmChainService, EvmBalances, EvmNativeBalance, EvmFungible, is_testnet, get_balances,
}
use onekey_balance_kit.ProviderApi.{ProviderApi}
use onekey_balance_kit.ProviderFactory.{Nest}

pub record Prices (U : Type 0) : Type 0 where
  pub zero_usd : U
  pub amount : U → Text → ℕ → U
  pub get_prices : ℕ → List Text → Reply (Map U)

abbrev pub zero_address : Text
zero_address = codes "0x0000000000000000000000000000000000000000"

abbrev pub mints : {U : Type 0} → List (EvmFungible U) → List Text
mints [] = []
mints (f ∷ fs) = f.mint ∷ mints fs

module _ {U : Type 0} (p : Prices U) where
  -- `prices.get(key) || 0`.
  abbrev pub price_of : Map U → Text → U
  price_of prices key = or_else (get key prices) p.zero_usd

  abbrev pub quote_native : Map U → EvmNativeBalance U → EvmNativeBalance U
  quote_native prices n = record n {
    usd = p.amount (price_of prices zero_address) n.balance n.decimals;
  }

  abbrev pub quote_fungible : Map U → EvmFungible U → EvmFungible U
  quote_fungible prices f = record f {
    usd = p.amount (price_of prices (to_lower f.mint)) f.balance f.decimals;
  }

  unfoldable pub quoted : Map U → EvmBalances U → EvmBalances U
  quoted prices b = record b {
    native_balance = quote_native prices b.native_balance;
    fungibles = map (quote_fungible prices) b.fungibles;
  }

module _ {C I : Type 0} where
  unfoldable pub should_quote : EvmChainService C I → Bool
  should_quote s = not (is_testnet s)

  -- The part behind `super.getBalances`; a failure of the price service is thrown on.
  unfoldable pub quote_balances :
      {U : Type 0} → Prices U → Reply (EvmBalances U) → EvmChainService C I → Reply (EvmBalances U)
  unfolding quoted
  quote_balances p threw s = threw
  quote_balances p (returned b) s =
      if should_quote s
      then elim (p.get_prices s.current_chain_id (zero_address ∷ mints b.fungibles)) [
        | threw ↦ threw
        | returned prices ↦ returned (quoted p prices b)
      ]
      else returned b

  unfoldable pub get_priced_balances :
      {U : Type 0}
      → Nest C I
      → ProviderApi I
      → (Text → Bool)
      → Prices U
      → Text
      → Option ℕ
      → Option Text
      → ℕ
      → EvmChainService C I
      → Reply (EvmBalances U) × EvmChainService C I
  unfolding quote_balances
  get_priced_balances nest api is_address p address chain_id provider now s =
      let (balances, s') =
        get_balances nest api is_address p.zero_usd address chain_id provider now s in
      (quote_balances p balances s', s')
