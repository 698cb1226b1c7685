-- ===== src/CacheKey/Patterns.antt =====
-- The patterns that the invalidation methods of core/cache/cache-key.service.ts hand to Redis, against
-- the keys that they are meant to delete.
use onekey_balance_kit.Base.{
  ℕ, ◌≡◌, ◌≢◌, Bool, true, Option, none, some, [], ◌∷◌, ◌++◌, Text, codes, truthy, join, show, All,
  arith, append-nil, show-AllDigits, ◌≤◌,
}
use onekey_balance_kit.Chains.{
  ChainName, ethereum, solana, polygon, bsc, ethereum_goerli, ethereum_sepolia, solana_devnet,
  bsc_testnet, polygon_mumbai, value, chain_info_map,
}
use onekey_balance_kit.Providers.{
  ProviderType, alchemy, rpc, infura, quicknode, okx, provider_value,
}
use onekey_balance_kit.CacheKey.RoundTrip.{id-ne-zero}
use onekey_balance_kit.CacheKey.{
  create_portfolio_key, chain_address_pattern, address_pattern, provider_pattern,
}

-- A unit that the pattern language of Redis reads as itself.
abbrev pub IsPlain : ℕ → Type 0
IsPlain c = (c ≢ b'*') × (c ≢ b'?') × (c ≢ b'[') × (c ≢ b'\\')

-- The pattern matching of Redis, which is not under src: what its documentation says of `*` and of
-- the units that stand for themselves.
pub record Glob (matches : Text → Text → Bool) : Type 0 where
  pub nothing : matches [] [] ≡ true
  pub plain : (c : ℕ) (p s : Text) → IsPlain c → matches p s ≡ true → matches (c ∷ p) (c ∷ s) ≡ true
  pub star : (p s t : Text) → matches p t ≡ true → matches (b'*' ∷ p) (s ++ t) ≡ true

module _ {matches : Text → Text → Bool} (glob : Glob matches) where
  pub plain_text :
      (t p s : Text) → All IsPlain t → matches p s ≡ true → matches (t ++ p) (t ++ s) ≡ true
  plain_text [] p s h m = m
  plain_text (c ∷ t) p s h m = glob.plain c (t ++ p) (t ++ s) h.0 (plain_text t p s h.1 m)

  pub star_end : (s : Text) → matches (codes "*") s ≡ true
  star_end s = rw (append-nil s) at (glob.star [] s [] glob.nothing)

pub value-IsPlain : (c : ChainName) → All IsPlain (value c)
value-IsPlain ethereum = omega arith
value-IsPlain solana = omega arith
value-IsPlain polygon = omega arith
value-IsPlain bsc = omega arith
value-IsPlain ethereum_goerli = omega arith
value-IsPlain ethereum_sepolia = omega arith
value-IsPlain solana_devnet = omega arith
value-IsPlain bsc_testnet = omega arith
value-IsPlain polygon_mumbai = omega arith

pub digits-IsPlain : (s : Text) → All (λ c. (b'0' ≤ c) × (c ≤ b'9')) s → All IsPlain s
digits-IsPlain [] h = tt
digits-IsPlain (c ∷ s) h =
    ((omega arith, omega arith, omega arith, omega arith), digits-IsPlain s h.1)

provider_value-IsPlain : (p : ProviderType) → All IsPlain (provider_value p)
provider_value-IsPlain alchemy = omega arith
provider_value-IsPlain rpc = omega arith
provider_value-IsPlain infura = omega arith
provider_value-IsPlain quicknode = omega arith
provider_value-IsPlain okx = omega arith

-- What stands behind the address in a key.
abbrev pub suffix : Option ProviderType → Text
suffix none = []
suffix (some p) = b':' ∷ provider_value p

abbrev pub id_of : ChainName → ℕ
id_of c = (chain_info_map c).id

-- A portfolio key, written out.
pub create_portfolio_key_lem :
    (c : ChainName) (a : Text) (p : Option ProviderType)
    → truthy a ≡ true
    → create_portfolio_key c a p
      ≡ codes "portfolio"
        ++ (b':' ∷ (value c ++ (b':' ∷ (show (id_of c) ++ (b':' ∷ (a ++ suffix p))))))
unfolding create_portfolio_key join
create_portfolio_key_lem c a none h = ground (arith, id-ne-zero c, append-nil a)
create_portfolio_key_lem c a (some p) h = ground (arith, id-ne-zero c)

module _ {matches : Text → Text → Bool} (glob : Glob matches) where
  -- `invalidateChainAddressCache` for a chain's own ID.
  chain_address_matches :
      (c : ChainName) (a : Text) (p : Option ProviderType)
      → truthy a ≡ true
      → All IsPlain a
      → matches (chain_address_pattern c (id_of c) a) (create_portfolio_key c a p) ≡ true
  unfolding chain_address_pattern
  chain_address_matches c a p h plain = rw (create_portfolio_key_lem c a p h) (
      plain_text glob (codes "portfolio:") _ _ (omega arith) (
        plain_text glob (value c) _ _ (value-IsPlain c) (
          glob.plain b':' _ _ (omega arith) (
            plain_text glob (show (id_of c)) _ _ (digits-IsPlain _ (show-AllDigits (id_of c))) (
              glob.plain b':' _ _ (omega arith)
                (plain_text glob a _ _ plain (star_end glob (suffix p))))))))

  -- `invalidateAddressCache`.
  address_matches :
      (c : ChainName) (a : Text) (p : Option ProviderType)
      → truthy a ≡ true
      → All IsPlain a
      → matches (address_pattern c a) (create_portfolio_key c a p) ≡ true
  unfolding address_pattern
  address_matches c a p h plain = rw (create_portfolio_key_lem c a p h) (
      plain_text glob (codes "portfolio:") _ _ (omega arith) (
        plain_text glob (value c) _ _ (value-IsPlain c) (
          glob.plain b':' _ _ (omega arith) (
            glob.star _ (show (id_of c)) _ (
              glob.plain b':' _ _ (omega arith)
                (plain_text glob a _ _ plain (star_end glob (suffix p))))))))

  -- `invalidateProviderCache`.
  provider_matches :
      (c : ChainName) (a : Text) (p : ProviderType)
      → truthy a ≡ true
      → matches (provider_pattern p) (create_portfolio_key c a (some p)) ≡ true
  unfolding provider_pattern
  provider_matches c a p h = rw (create_portfolio_key_lem c a (some p) h) (
      glob.star _ (codes "portfolio") _ (
        glob.plain b':' _ _ (omega arith) (
          glob.star _ (value c) _ (
            glob.plain b':' _ _ (omega arith) (
              glob.star _ (show (id_of c)) _ (
                glob.plain b':' _ _ (omega arith) (
                  glob.star _ a _ (
                    glob.plain b':' _ _ (omega arith) (
                      rw append-nil at (
                        plain_text glob (provider_value p) [] [] (provider_value-IsPlain p)
                          glob.nothing))))))))))

-- Where the matcher reads `*` and plain units as Redis documents them: the key of a portfolio is
-- matched by the pattern of its chain and address, by that of its chain, chain ID and address, and,
-- if it names a provider, by that of the provider; the address is not empty and holds no unit that
-- the pattern language reads otherwise.
pub create_portfolio_key_matched :
    (matches : Text → Text → Bool) (glob : Glob matches) (c : ChainName) (a : Text)
    → truthy a ≡ true
    → All IsPlain a
    → ((p : Option ProviderType)
        → (matches (address_pattern c a) (create_portfolio_key c a p) ≡ true)
          × (matches (chain_address_pattern c (id_of c) a) (create_portfolio_key c a p) ≡ true))
      × ((p : ProviderType)
          → matches (provider_pattern p) (create_portfolio_key c a (some p)) ≡ true)
create_portfolio_key_matched matches glob c a h plain = (
  λ p. (address_matches glob c a p h plain, chain_address_matches glob c a p h plain),
  λ p. provider_matches glob c a p h,
)
