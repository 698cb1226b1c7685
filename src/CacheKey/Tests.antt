-- ===== src/CacheKey/Tests.antt =====
-- Runs of the model of core/cache/cache-key.service.ts, and its theorems at examples.
use onekey_balance_kit.Base.{
  ℕ, ◌≡◌, refl, Bool, true, false, ◌||◌, none, some, [], ◌∷◌, ◌++◌, Text, codes, arith, nat_beq,
  if◌then◌else◌, show, join,
}
use onekey_balance_kit.Chains.{ethereum, solana}
use onekey_balance_kit.Providers.{alchemy, rpc}
use onekey_balance_kit.CacheKey.RoundTrip.{restored, parse_key-generate_key}
use onekey_balance_kit.CacheKey.Portfolio.{create_portfolio_key-injective}
use onekey_balance_kit.CacheKey.Patterns.{Glob}
use onekey_balance_kit.CacheKey.{CacheKeyComponents, transaction, generate_key, parse_key}

abbrev components : CacheKeyComponents
components = record {
  prefix = transaction;
  chain = ethereum;
  chain_id = none;
  address = some (codes "0xa");
  provider = some rpc;
  extra = codes "page" ∷ codes "2" ∷ [];
}

generated : generate_key components ≡ codes "transaction:ethereum:1:0xa:rpc:page:2"
unfolding generate_key show join
generated = refl

parse_key-generate_key_example : parse_key (generate_key components) ≡ restored components
parse_key-generate_key_example = parse_key-generate_key components (codes "0xa") (record {
  addressed = refl;
  present = refl;
  whole = omega arith;
  extras = omega arith;
  clear = tt;
  safe = omega arith;
})

create_portfolio_key-injective_example :
    (solana ≡ solana) × (codes "So1" ≡ codes "So1") × (some alchemy ≡ some alchemy)
create_portfolio_key-injective_example =
    create_portfolio_key-injective solana solana (codes "So1") (codes "So1") (some alchemy)
      (some alchemy) (refl, omega arith) (refl, omega arith) refl

-- A matcher for `*` and plain units.
abbrev some_suffix : (Text → Bool) → Text → Bool
some_suffix f [] = f []
some_suffix f (c ∷ s) = f (c ∷ s) || some_suffix f s

abbrev same_head : ℕ → (Text → Bool) → Text → Bool
same_head c f [] = false
same_head c f (d ∷ s) = if nat_beq c d then f s else false

abbrev pub glob_match : Text → Text → Bool
glob_match [] [] = true
glob_match [] (c ∷ s) = false
glob_match (c ∷ p) s =
    if nat_beq c b'*' then some_suffix (glob_match p) s else same_head c (glob_match p) s

some_suffix_self : (f : Text → Bool) (t : Text) → f t ≡ true → some_suffix f t ≡ true
some_suffix_self f [] h = h
some_suffix_self f (c ∷ t) h = rw h

some_suffix-append : (f : Text → Bool) (s t : Text) → f t ≡ true → some_suffix f (s ++ t) ≡ true
some_suffix-append f [] t h = some_suffix_self f t h
some_suffix-append f (c ∷ s) t h = ground (arith, some_suffix-append f s t h)

pub glob_match-Glob : Glob glob_match
glob_match-Glob = record {
  nothing = refl;
  plain = λ c p s h m. ground arith;
  star = λ p s t m. some_suffix-append (glob_match p) s t m;
}
