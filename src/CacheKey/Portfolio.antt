-- ===== src/CacheKey/Portfolio.antt =====
-- The keys of portfolios, `createPortfolioKey` of core/cache/cache-key.service.ts.
use onekey_balance_kit.Base.{
  ◌≤◌, ◌≡◌, refl, sym, ap, ◌∙◌, true, Option, none, some, [], Text, truthy, max_safe, text_beq,
  Lacks, arith, find_if,
}
use onekey_balance_kit.Chains.Lookup.{of_value_iff}
use onekey_balance_kit.Chains.{ChainName, ethereum, value, chain_info_map}
use onekey_balance_kit.Providers.{
  ProviderType, alchemy, rpc, infura, quicknode, okx, provider_value, all_providers,
}
use onekey_balance_kit.CacheKey.{
  portfolio, CacheKeyComponents, delimiter, Parsed, parse_key, create_portfolio_key,
}
use onekey_balance_kit.CacheKey.RoundTrip.{
  IsWellFormed, IsClear, restored, provider_text, parse_key-generate_key,
}

abbrev pub portfolio_components : ChainName → Text → Option ProviderType → CacheKeyComponents
portfolio_components chain address provider = record {
  prefix = portfolio;
  chain = chain;
  chain_id = none;
  address = some address;
  provider = provider;
  extra = [];
}

id-le-safe : (c : ChainName) → (chain_info_map c).id ≤ max_safe
id-le-safe ethereum = omega arith
id-le-safe c = omega arith

-- An address that can stand in a key.
abbrev pub IsKeyAddress : Text → Type 0
IsKeyAddress address = (truthy address ≡ true) × Lacks delimiter address

portfolio-IsWellFormed :
    (chain : ChainName) (address : Text) (provider : Option ProviderType)
    → IsKeyAddress address
    → IsWellFormed (portfolio_components chain address provider) address
portfolio-IsWellFormed chain address provider h = record {
  addressed = refl;
  present = h.0;
  whole = h.1;
  extras = tt;
  clear = clear provider;
  safe = id-le-safe chain;
}
  where
    clear : (p : Option ProviderType) → IsClear p []
    clear none = tt
    clear (some p) = tt

pub parse_key-create_portfolio_key :
    (chain : ChainName) (address : Text) (provider : Option ProviderType)
    → IsKeyAddress address
    → parse_key (create_portfolio_key chain address provider)
      ≡ restored (portfolio_components chain address provider)
unfolding create_portfolio_key
parse_key-create_portfolio_key chain address provider h =
    parse_key-generate_key (portfolio_components chain address provider) address
      (portfolio-IsWellFormed chain address provider h)

provider_of : Text → Option ProviderType
provider_of s = find_if (λ p. text_beq (provider_value p) s) all_providers

provider_of-value : (p : ProviderType) → provider_of (provider_value p) ≡ some p
unfolding provider_of
provider_of-value alchemy = refl
provider_of-value rpc = refl
provider_of-value infura = refl
provider_of-value quicknode = refl
provider_of-value okx = refl

pub provider_text-injective :
    (p q : Option ProviderType) → provider_text p ≡ provider_text q → p ≡ q
provider_text-injective none none e = refl
provider_text-injective none (some q) e = cc
provider_text-injective (some p) none e = cc
provider_text-injective (some p) (some q) e = cc (provider_of-value p, provider_of-value q)

pub value-injective : (c d : ChainName) → value c ≡ value d → c ≡ d
value-injective c d e =
    let found : some d ≡ some c =
      sym ((of_value_iff (value d) d).1 refl) ∙ (of_value_iff (value d) c).1 (sym e) in
    cc

-- Two portfolio keys are equal only for the same chain, address and provider, where the addresses
-- are not empty and hold no delimiter: no two portfolios share a cache entry.
pub create_portfolio_key-injective :
    (c d : ChainName) (a b : Text) (p q : Option ProviderType)
    → IsKeyAddress a
    → IsKeyAddress b
    → create_portfolio_key c a p ≡ create_portfolio_key d b q
    → (c ≡ d) × (a ≡ b) × (p ≡ q)
create_portfolio_key-injective c d a b p q ha hb e =
    let same : restored (portfolio_components c a p) ≡ restored (portfolio_components d b q) =
      sym (parse_key-create_portfolio_key c a p ha)
      ∙ (ap parse_key e ∙ parse_key-create_portfolio_key d b q hb) in
    (
      value-injective c d
          (let p : some (value c) ≡ some (value d) = ap (λ (r : Parsed). r.chain) same in cc),
      let p : some a ≡ some b = ap (λ (r : Parsed). r.address) same in cc,
      provider_text-injective p q (ap (λ (r : Parsed). r.provider) same),
    )
