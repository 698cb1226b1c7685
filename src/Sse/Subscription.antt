-- ===== src/Sse/Subscription.antt =====
-- The filters of core/sse/sse-subscription.service.ts: which events a subscription lets through.
use onekey_balance_kit.Base.{
  ℕ, Bool, true, false, ◌&&◌, ◌||◌, not, Option, none, some, List, ◌∷◌, Text, codes, truthy, given,
  text_beq, nat_beq, split, includes, parse_int, if◌then◌else◌, is_some,
}
use onekey_balance_kit.Chains.{ChainName, value}

pub record AddressSubscription : Type 0 where
  pub chain : Option ChainName
  pub chain_id : Option ℕ
  pub address : Option Text
  pub pattern : Option Text

pub record Metadata : Type 0 where
  pub chain : Option ChainName
  pub chain_id : Option ℕ
  pub address : Option Text

pub record CacheInvalidateEvent : Type 0 where
  pub key : Text
  pub pattern : Option Text
  pub timestamp : ℕ
  pub id : Text
  pub metadata : Option Metadata

-- The object that `formatCacheEvent` writes as JSON and the live filter reads back.
pub record EventData : Type 0 where
  pub key : Text
  pub pattern : Option Text
  pub timestamp : ℕ
  pub metadata : Option Metadata

abbrev pub event_data : CacheInvalidateEvent → EventData
event_data e = record {
  key = e.key;
  pattern = e.pattern;
  timestamp = e.timestamp;
  metadata = e.metadata;
}

-- A chain ID in a condition: 0 is false.
abbrev pub given_id : Option ℕ → Bool
given_id none = false
given_id (some n) = not (nat_beq n 0)

abbrev pub has_chain : Option ChainName → Text → Bool
has_chain none s = true
has_chain (some c) s = text_beq (value c) s

abbrev pub same_id : Option ℕ → Option ℕ → Bool
same_id none none = true
same_id none (some n) = false
same_id (some m) none = false
same_id (some m) (some n) = nat_beq m n

abbrev pub has_id : Option ℕ → Option ℕ → Bool
has_id wanted found = not (given_id wanted) || same_id wanted found

abbrev pub is_text : Option Text → Text → Bool
is_text none s = false
is_text (some t) s = text_beq t s

abbrev pub has_address : Option Text → Text → Bool
has_address wanted s = not (given wanted) || is_text wanted s

abbrev pub has_pattern : Option Text → Text → Bool
has_pattern none key = true
has_pattern (some p) key = not (truthy p) || includes key p

-- The test that both filters make where they read the key's parts.
unfoldable pub matches_parts : List Text → Text → AddressSubscription → Bool
matches_parts (prefix ∷ chain ∷ chain_id ∷ address ∷ rest) key sub =
    if text_beq prefix (codes "portfolio")
    then has_chain sub.chain chain
      && (has_id sub.chain_id (parse_int chain_id)
          && (has_address sub.address address && has_pattern sub.pattern key))
    else not (is_some sub.chain || (given_id sub.chain_id || given sub.address))
matches_parts _ key sub = not (is_some sub.chain || (given_id sub.chain_id || given sub.address))

abbrev pub metadata_chain : Option ChainName → Option ChainName → Bool
metadata_chain none found = true
metadata_chain (some c) none = false
metadata_chain (some c) (some d) = text_beq (value d) (value c)

abbrev pub metadata_address : Option Text → Option Text → Bool
metadata_address wanted none = not (given wanted)
metadata_address wanted (some s) = has_address wanted s

-- `matchesSubscription`, the filter of replayed events.
unfoldable pub matches_subscription : CacheInvalidateEvent → AddressSubscription → Bool
matches_subscription event sub = elim event.metadata [
  | none ↦ matches_parts (split b':' event.key) event.key sub
  | some m ↦
      metadata_chain sub.chain m.chain
      && (has_id sub.chain_id m.chain_id
          && (metadata_address sub.address m.address && has_pattern sub.pattern event.key))
]

-- `matchesSubscriptionMessage`, the filter of live events: it never reads the metadata.
unfoldable pub matches_subscription_message : EventData → AddressSubscription → Bool
matches_subscription_message d sub =
    if truthy d.key then matches_parts (split b':' d.key) d.key sub else false
