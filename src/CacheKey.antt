-- ===== src/CacheKey.antt =====
-- core/cache/cache-key.service.ts: cache keys are built from components and parsed back.
pub mod RoundTrip
pub mod Portfolio
pub mod Patterns
pub mod Tests
use onekey_balance_kit.Base.{
  ℕ, Bool, true, false, Option, none, some, List, [], ◌∷◌, ◌++◌, Text, codes, truthy, split, join,
  show, to_number, text_beq, to_lower, any, if◌then◌else◌, nat_beq,
}
use onekey_balance_kit.Chains.{ChainName, value, chain_info_map}
use onekey_balance_kit.Providers.{ProviderType, provider_value, all_providers}

pub data CacheKeyPrefix : Type 0 where
  portfolio transaction nft price : CacheKeyPrefix

abbrev pub prefix_value : CacheKeyPrefix → Text
prefix_value portfolio = codes "portfolio"
prefix_value transaction = codes "transaction"
prefix_value nft = codes "nft"
prefix_value price = codes "price"

pub record CacheKeyComponents : Type 0 where
  pub prefix : CacheKeyPrefix
  pub chain : ChainName
  pub chain_id : Option ℕ
  pub address : Option Text
  pub provider : Option ProviderType
  pub extra : List Text

abbrev pub delimiter : ℕ
delimiter = b':'

-- `chainId || CHAIN_INFO_MAP[chain]?.id`.
abbrev pub resolved_chain_id : CacheKeyComponents → ℕ
resolved_chain_id c = elim c.chain_id [
  | none ↦ (chain_info_map c.chain).id
  | some n ↦ if nat_beq n 0 then (chain_info_map c.chain).id else n
]

abbrev pub push_id : ℕ → List Text
push_id n = if nat_beq n 0 then [] else show n ∷ []

abbrev pub push_text : Option Text → List Text
push_text none = []
push_text (some s) = if truthy s then s ∷ [] else []

abbrev pub push_provider : Option ProviderType → List Text
push_provider none = []
push_provider (some p) = provider_value p ∷ []

unfoldable pub key_parts : CacheKeyComponents → List Text
key_parts c =
    prefix_value c.prefix
    ∷ value c.chain
    ∷ (push_id (resolved_chain_id c)
        ++ (push_text c.address ++ (push_provider c.provider ++ c.extra)))

unfoldable pub generate_key : CacheKeyComponents → Text
unfolding key_parts
generate_key c = join delimiter (key_parts c)

-- `Partial<CacheKeyComponents>`; the casts of the source leave the texts as they are.
pub record Parsed : Type 0 where
  pub prefix : Option Text
  pub chain : Option Text
  pub chain_id : Option ℕ
  pub address : Option Text
  pub provider : Option Text
  pub extra : Option (List Text)

abbrev pub empty_parsed : Parsed
empty_parsed = record {
  prefix = none;
  chain = none;
  chain_id = none;
  address = none;
  provider = none;
  extra = none;
}

abbrev pub is_provider : Text → Bool
is_provider s = any (λ p. text_beq (to_lower (provider_value p)) (to_lower s)) all_providers

-- The index of the source is the rest of the parts here.
unfoldable pub parse_extra : Parsed → List Text → Parsed
parse_extra c [] = c
parse_extra c (x ∷ xs) = record c { extra = some (x ∷ xs) }

unfoldable pub parse_provider : Parsed → List Text → Parsed
unfolding parse_extra
parse_provider c [] = c
parse_provider c (s ∷ rest) =
    if is_provider s
    then parse_extra (record c { provider = some s }) rest
    else parse_extra c (s ∷ rest)

unfoldable pub parse_address : Parsed → List Text → Parsed
unfolding parse_provider
parse_address c [] = c
parse_address c (s ∷ rest) = parse_provider (record c { address = some s }) rest

-- `!isNaN(n) && String(n) === s` for `n = Number(s)`.
abbrev pub numeric : Text → Option ℕ
numeric s = elim (to_number s) [
  | none ↦ none
  | some n ↦ if text_beq (show n) s then some n else none
]

unfoldable pub parse_chain_id : Parsed → List Text → Parsed
unfolding parse_address
parse_chain_id c [] = c
parse_chain_id c (s ∷ rest) = elim (numeric s) [
  | none ↦ parse_address c (s ∷ rest)
  | some n ↦ parse_address (record c { chain_id = some n }) rest
]

unfoldable pub parse_parts : List Text → Parsed
unfolding parse_chain_id
parse_parts [] = empty_parsed
parse_parts (_ ∷ []) = empty_parsed
parse_parts (prefix ∷ chain ∷ rest) =
    parse_chain_id (record empty_parsed { prefix = some prefix; chain = some chain }) rest

unfoldable pub parse_key : Text → Parsed
unfolding parse_parts
parse_key key = parse_parts (split delimiter key)

unfoldable pub create_portfolio_key : ChainName → Text → Option ProviderType → Text
unfolding generate_key
create_portfolio_key chain address provider = generate_key (record {
  prefix = portfolio;
  chain = chain;
  chain_id = none;
  address = some address;
  provider = provider;
  extra = [];
})

-- The patterns that the invalidation calls hand to `deleteByPattern`.
unfoldable pub address_pattern : ChainName → Text → Text
address_pattern chain address =
    codes "portfolio" ++ (b':' ∷ (value chain ++ (codes ":*:" ++ (address ++ codes "*"))))

unfoldable pub chain_address_pattern : ChainName → ℕ → Text → Text
chain_address_pattern chain chain_id address =
    codes "portfolio"
    ++ (b':' ∷ (value chain ++ (b':' ∷ (show chain_id ++ (b':' ∷ (address ++ codes "*"))))))

unfoldable pub provider_pattern : ProviderType → Text
provider_pattern provider = codes "*:*:*:*:" ++ provider_value provider
