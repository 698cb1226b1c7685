-- ===== src/CacheKey/RoundTrip.antt =====
-- `parseKey` after `generateKey`.
use onekey_balance_kit.Base.{
  ℕ, ◌≤◌, ◌≡◌, refl, ◌≢◌, true, false, Option, none, some, List, [], ◌∷◌, ◌++◌, Text, truthy, split,
  split-join, show, show-Lacks, to_number-show, max_safe, text_beq_refl, All, Lacks, arith,
  to_lower, All-append,
}
use onekey_balance_kit.Chains.{
  ChainName, ethereum, solana, polygon, bsc, ethereum_goerli, ethereum_sepolia, solana_devnet,
  bsc_testnet, polygon_mumbai, value, chain_info_map,
}
use onekey_balance_kit.Providers.{
  ProviderType, alchemy, rpc, infura, quicknode, okx, provider_value,
}
use onekey_balance_kit.CacheKey.{
  CacheKeyPrefix, portfolio, transaction, nft, price, prefix_value, CacheKeyComponents, delimiter,
  resolved_chain_id, push_id, push_text, push_provider, key_parts, generate_key, Parsed,
  empty_parsed, is_provider, parse_provider, parse_chain_id, parse_parts, parse_key, numeric,
}

pub value-Lacks : (c : ChainName) → Lacks delimiter (value c)
value-Lacks ethereum = omega arith
value-Lacks solana = omega arith
value-Lacks polygon = omega arith
value-Lacks bsc = omega arith
value-Lacks ethereum_goerli = omega arith
value-Lacks ethereum_sepolia = omega arith
value-Lacks solana_devnet = omega arith
value-Lacks bsc_testnet = omega arith
value-Lacks polygon_mumbai = omega arith

prefix_value-Lacks : (p : CacheKeyPrefix) → Lacks delimiter (prefix_value p)
prefix_value-Lacks portfolio = omega arith
prefix_value-Lacks transaction = omega arith
prefix_value-Lacks nft = omega arith
prefix_value-Lacks price = omega arith

pub provider_value-Lacks : (p : ProviderType) → Lacks delimiter (provider_value p)
provider_value-Lacks alchemy = omega arith
provider_value-Lacks rpc = omega arith
provider_value-Lacks infura = omega arith
provider_value-Lacks quicknode = omega arith
provider_value-Lacks okx = omega arith

is_provider-provider_value : (p : ProviderType) → is_provider (provider_value p) ≡ true
unfolding to_lower
is_provider-provider_value alchemy = refl
is_provider-provider_value rpc = refl
is_provider-provider_value infura = refl
is_provider-provider_value quicknode = refl
is_provider-provider_value okx = refl

push_id-Lacks : (n : ℕ) → All (Lacks delimiter) (push_id n)
push_id-Lacks n = ground (arith, show-Lacks n)

push_text-Lacks :
    (o : Option Text) (a : Text)
    → o ≡ some a
    → Lacks delimiter a
    → All (Lacks delimiter) (push_text o)
push_text-Lacks none a e h = tt
push_text-Lacks (some s) a e h = let same : s ≡ a = ground arith in rw same (ground arith)

push_provider-Lacks : (o : Option ProviderType) → All (Lacks delimiter) (push_provider o)
push_provider-Lacks none = tt
push_provider-Lacks (some p) = (provider_value-Lacks p, tt)

-- The first further part, where no provider stands before it, is not taken for one.
abbrev pub IsClear : Option ProviderType → List Text → Type 0
IsClear (some p) extra = Unit
IsClear none [] = Unit
IsClear none (x ∷ xs) = is_provider x ≡ false

-- Components with an address, whose parts hold no delimiter.
pub record IsWellFormed (c : CacheKeyComponents) (address : Text) : Type 0 where
  pub addressed : c.address ≡ some address
  pub present : truthy address ≡ true
  pub whole : Lacks delimiter address
  pub extras : All (Lacks delimiter) c.extra
  pub clear : IsClear c.provider c.extra
  pub safe : resolved_chain_id c ≤ max_safe

abbrev pub some_unless_empty : List Text → Option (List Text)
some_unless_empty [] = none
some_unless_empty (x ∷ xs) = some (x ∷ xs)

abbrev pub provider_text : Option ProviderType → Option Text
provider_text none = none
provider_text (some p) = some (provider_value p)

-- What parsing is to give back: the chain ID is the resolved one.
abbrev pub restored : CacheKeyComponents → Parsed
restored c = record {
  prefix = some (prefix_value c.prefix);
  chain = some (value c.chain);
  chain_id = some (resolved_chain_id c);
  address = c.address;
  provider = provider_text c.provider;
  extra = some_unless_empty c.extra;
}

pub id-ne-zero : (c : ChainName) → (chain_info_map c).id ≢ 0
id-ne-zero ethereum = omega arith
id-ne-zero c = omega arith

resolved-ne-zero : (c : CacheKeyComponents) → resolved_chain_id c ≢ 0
resolved-ne-zero c = ground (arith, id-ne-zero c.chain)

split-generate_key :
    (c : CacheKeyComponents) (address : Text)
    → IsWellFormed c address
    → split delimiter (generate_key c) ≡ key_parts c
unfolding generate_key
split-generate_key c address w = split-join delimiter (prefix_value c.prefix) _ (
  prefix_value-Lacks c.prefix,
  (
    value-Lacks c.chain,
    All-append (Lacks delimiter) (push_id (resolved_chain_id c)) _
        (push_id-Lacks (resolved_chain_id c))
        (All-append (Lacks delimiter) (push_text c.address) _
          (push_text-Lacks c.address address w.addressed w.whole)
          (All-append (Lacks delimiter) (push_provider c.provider) c.extra
            (push_provider-Lacks c.provider) w.extras)),
  ),
)

numeric-show : (n : ℕ) → n ≤ max_safe → numeric (show n) ≡ some n
numeric-show n h = ground (arith, to_number-show n h, text_beq_refl (show n))

parse_provider-push :
    (c : Parsed) (p : Option ProviderType) (extra : List Text)
    → c.provider ≡ none
    → c.extra ≡ none
    → IsClear p extra
    → parse_provider c (push_provider p ++ extra)
      ≡ record c { provider = provider_text p; extra = some_unless_empty extra }
unfolding parse_provider
parse_provider-push c (some p) [] e f h = ground (arith, is_provider-provider_value p)
parse_provider-push c (some p) (x ∷ xs) e f h = ground (arith, is_provider-provider_value p)
parse_provider-push c none [] e f h = ground arith
parse_provider-push c none (x ∷ xs) e f h = ground arith

parse_parts-show :
    (prefix chain address : Text) (n : ℕ) (rest : List Text)
    → n ≤ max_safe
    → parse_parts (prefix ∷ chain ∷ show n ∷ address ∷ rest)
      ≡ parse_provider
          (record empty_parsed {
            prefix = some prefix;
            chain = some chain;
            chain_id = some n;
            address = some address;
          })
          rest
unfolding parse_parts
parse_parts-show prefix chain address n rest h = rw (numeric-show n h, parse_chain_id)

key_parts-IsWellFormed :
    (c : CacheKeyComponents) (address : Text)
    → IsWellFormed c address
    → key_parts c
      ≡ prefix_value c.prefix
        ∷ value c.chain
        ∷ show (resolved_chain_id c)
        ∷ address
        ∷ (push_provider c.provider ++ c.extra)
unfolding key_parts
key_parts-IsWellFormed c address w = ground (arith, resolved-ne-zero c)

-- Parsing a generated key gives back its components, with the chain ID resolved, if there is an
-- address that is not empty, no part holds the delimiter, the ID is a safe integer, and the first
-- further part is no provider name where no provider is given.
pub parse_key-generate_key :
    (c : CacheKeyComponents) (address : Text)
    → IsWellFormed c address
    → parse_key (generate_key c) ≡ restored c
unfolding parse_key
parse_key-generate_key c address w =
    rw
      (
        split-generate_key c address w,
        key_parts-IsWellFormed c address w,
        parse_parts-show (prefix_value c.prefix) (value c.chain) address (resolved_chain_id c)
            (push_provider c.provider ++ c.extra) w.safe,
        w.addressed,
      )
      (parse_provider-push _ c.provider c.extra refl refl w.clear)
