-- ===== src/PriceableChain.antt =====
-- chains/services/core/priceable-chain.service.ts: the prices of tokens. The price service is an argument,
-- as are the floating-point numbers `U`: `times` is `price * parseFloat(balance)`. A token is
-- that of chains/interfaces/token-balance.interface.ts.
pub mod Unpriced
use onekey_balance_kit.Base.{
  ℕ, Bool, true, false, not, Option, none, some, List, [], ◌∷◌, Text, to_lower, map, or_else,
  if◌then◌else◌, Map, get,
}
use onekey_balance_kit.Cache.{Reply, returned, threw}

pub record PricedToken (U : Type 0) : Type 0 where
  pub token_address : Text
  pub symbol : Text
  pub name : Option Text
  pub balance : Text
  pub decimals : ℕ
  pub usd_value : Option U

pub record PriceSource (U : Type 0) : Type 0 where
  pub zero_usd : U
  pub times : U → Text → U
  pub get_prices : ℕ → List Text → Reply (Map U)

abbrev pub addresses : {U : Type 0} → List (PricedToken U) → List Text
addresses ts = map (λ t. t.token_address) ts

abbrev pub should_quote : Bool → Bool
should_quote is_testnet = not is_testnet

module _ {U : Type 0} (p : PriceSource U) where
  abbrev pub without_price : PricedToken U → PricedToken U
  without_price t = record t { usd_value = some p.zero_usd }

  abbrev pub with_price : Map U → PricedToken U → PricedToken U
  with_price prices t = record t {
    usd_value =
        some (p.times (or_else (get (to_lower t.token_address) prices) p.zero_usd) t.balance);
  }

  -- The part of `quote` in its try block.
  abbrev pub ask_prices : ℕ → List (PricedToken U) → List (PricedToken U)
  ask_prices chain_id [] = []
  ask_prices chain_id (t ∷ ts) = elim (p.get_prices chain_id (addresses (t ∷ ts))) [
    | threw ↦ map without_price (t ∷ ts)
    | returned prices ↦ map (with_price prices) (t ∷ ts)
  ]

  unfoldable pub quote : Bool → ℕ → List (PricedToken U) → List (PricedToken U)
  quote is_testnet chain_id ts =
      if should_quote is_testnet then ask_prices chain_id ts else map without_price ts
