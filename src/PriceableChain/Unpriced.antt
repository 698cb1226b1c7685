-- ===== src/PriceableChain/Unpriced.antt =====
-- What prices change in a list of tokens.
use onekey_balance_kit.Base.{
  ℕ, ◌≡◌, refl, Bool, true, false, none, List, [], ◌∷◌, map, Map, All, is_some,
}
use onekey_balance_kit.Cache.{Reply, returned, threw}
use onekey_balance_kit.PriceableChain.{
  PricedToken, PriceSource, addresses, without_price, with_price, quote,
}

-- A token without its price.
abbrev pub unpriced : {U : Type 0} → PricedToken U → PricedToken U
unpriced t = record t { usd_value = none }

module _ {U : Type 0} where
  -- The same tokens, each with a price.
  abbrev pub IsPriced : List (PricedToken U) → List (PricedToken U) → Type 0
  IsPriced ts qs = (map unpriced qs ≡ map unpriced ts) × All (λ q. is_some q.usd_value ≡ true) qs

  priced :
      (f : PricedToken U → PricedToken U)
      → ((t : PricedToken U) → unpriced (f t) ≡ unpriced t)
      → ((t : PricedToken U) → is_some (f t).usd_value ≡ true)
      → (ts : List (PricedToken U)) → IsPriced ts (map f ts)
  priced f keeps has [] = (refl, tt)
  priced f keeps has (t ∷ ts) =
      let rest = priced f keeps has ts in (rw (keeps t, rest.0) refl, (has t, rest.1))

  asked-IsPriced :
      (p : PriceSource U) (ts : List (PricedToken U)) (reply : Reply (Map U))
      → IsPriced ts (elim reply [
        | threw ↦ map (without_price p) ts
        | returned prices ↦ map (with_price p prices) ts
      ])
  asked-IsPriced p ts threw = priced (without_price p) (λ t. refl) (λ t. refl) ts
  asked-IsPriced p ts (returned prices) = priced (with_price p prices) (λ t. refl) (λ t. refl) ts

  -- Whatever the price service does, the answer has the tokens that were given, in their order and
  -- unchanged but for their prices, and each of them has a price.
  pub quote-IsPriced :
      (p : PriceSource U) (is_testnet : Bool) (chain_id : ℕ) (ts : List (PricedToken U))
      → IsPriced ts (quote p is_testnet chain_id ts)
  unfolding quote
  quote-IsPriced p true chain_id ts = priced (without_price p) (λ t. refl) (λ t. refl) ts
  quote-IsPriced p false chain_id [] = (refl, tt)
  quote-IsPriced p false chain_id (t ∷ ts) =
      asked-IsPriced p (t ∷ ts) (p.get_prices chain_id (addresses (t ∷ ts)))
