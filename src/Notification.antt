-- ===== src/Notification.antt =====
-- notification/notification.service.ts: what the service passes to the event emitter. The emitter's
-- queue is the list of what was emitted; `D` is the type of portfolio data and of custom data, which
-- the service only passes on. The listeners that only write a log are left out.
use onekey_balance_kit.Base.{ℕ, Option, List, [], ◌∷◌, ◌++◌, Text, codes, show}
use onekey_balance_kit.Chains.{ChainName, value}
use onekey_balance_kit.Providers.{ProviderType}

-- The metadata objects that the emitters of address activity write.
pub data ActivityMetadata : Type 0 where
  activity : (tx_hash event_type : Text) → ActivityMetadata
  nft_transfer : (contract_address token_id : Text) → ActivityMetadata
  transaction_mined : (tx_hash : Text) → ActivityMetadata

pub record AddressCacheInvalidatedEvent : Type 0 where
  pub chain : ChainName
  pub chain_id : ℕ
  pub address : Text
  pub cache_key : Text
  pub cache_pattern : Text
  pub timestamp : ℕ

pub data Notification (D : Type 0) : Type 0 where
  address_activity : ChainName → ℕ → Text → Option ActivityMetadata → Notification D
  nft_activity :
      ChainName → (contract_address token_id from_address to_address : Text) → Notification D
  transaction_mined : ChainName → (tx_hash from_address to_address : Text) → Notification D
  custom_event : D → Notification D
  portfolio_update : ChainName → ℕ → Text → D → Option ProviderType → Option ℕ → Notification D
  portfolio_redis_updated :
      ChainName → ℕ → Text → D → Option ProviderType → Option ℕ → Notification D
  address_cache_invalidated : AddressCacheInvalidatedEvent → Notification D

abbrev pub Emitted : Type 0 → Type 0
Emitted D = List (Notification D)

module _ {D : Type 0} where
  abbrev pub emit_address_activity :
      ChainName → ℕ → Text → Option ActivityMetadata → Emitted D → Emitted D
  emit_address_activity chain chain_id address metadata out =
      out ++ address_activity chain chain_id address metadata ∷ []

  abbrev pub emit_nft_activity : ChainName → Text → Text → Text → Text → Emitted D → Emitted D
  emit_nft_activity chain contract token from to out =
      out ++ nft_activity chain contract token from to ∷ []

  abbrev pub emit_transaction_mined : ChainName → Text → Text → Text → Emitted D → Emitted D
  emit_transaction_mined chain hash from to out = out ++ transaction_mined chain hash from to ∷ []

  abbrev pub emit_custom_event : D → Emitted D → Emitted D
  emit_custom_event d out = out ++ custom_event d ∷ []

  abbrev pub emit_portfolio_update :
      ChainName → ℕ → Text → D → Option ProviderType → Option ℕ → Emitted D → Emitted D
  emit_portfolio_update chain chain_id address d provider ttl out =
      out ++ portfolio_update chain chain_id address d provider ttl ∷ []

  abbrev pub emit_portfolio_redis_updated :
      ChainName → ℕ → Text → D → Option ProviderType → Option ℕ → Emitted D → Emitted D
  emit_portfolio_redis_updated chain chain_id address d provider ttl out =
      out ++ portfolio_redis_updated chain chain_id address d provider ttl ∷ []

unfoldable pub invalidated_key : ChainName → ℕ → Text → Text
invalidated_key chain chain_id address =
    codes "portfolio" ++ (b':' ∷ (value chain ++ (b':' ∷ (show chain_id ++ (b':' ∷ address)))))

unfoldable pub invalidated_pattern : ChainName → ℕ → Text → Text
invalidated_pattern chain chain_id address = invalidated_key chain chain_id address ++ codes "*"

unfoldable pub address_cache_event : ChainName → ℕ → Text → ℕ → AddressCacheInvalidatedEvent
address_cache_event chain chain_id address now = record {
  chain = chain;
  chain_id = chain_id;
  address = address;
  cache_key = invalidated_key chain chain_id address;
  cache_pattern = invalidated_pattern chain chain_id address;
  timestamp = now;
}

abbrev pub emit_address_cache_invalidated :
    {D : Type 0} → ChainName → ℕ → Text → ℕ → Emitted D → Emitted D
emit_address_cache_invalidated chain chain_id address now out =
    out ++ address_cache_invalidated (address_cache_event chain chain_id address now) ∷ []
