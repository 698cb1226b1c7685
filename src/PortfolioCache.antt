-- ===== src/PortfolioCache.antt =====
-- core/cache/portfolio-cache.listener.ts: a portfolio update is written to the cache, and then passed on
-- to the listener that stores it in the database. `D` is the type of portfolio data.
pub mod Written
pub mod Tests
use onekey_balance_kit.Base.{ℕ, ◌*◌, Option, none, some, Text}
use onekey_balance_kit.Cache.{Manager, Result, ok, err, cache_set}
use onekey_balance_kit.CacheKey.{create_portfolio_key}
use onekey_balance_kit.Chains.{ChainName}
use onekey_balance_kit.Notification.{Emitted, emit_portfolio_redis_updated}
use onekey_balance_kit.Providers.{ProviderType}

pub record PortfolioUpdateEvent (D : Type 0) : Type 0 where
  pub chain : ChainName
  pub chain_id : ℕ
  pub address : Text
  pub portfolio_data : D
  pub provider : Option ProviderType
  pub ttl_seconds : Option ℕ

abbrev pub mongo_ttl_seconds : ℕ
mongo_ttl_seconds = 30 * 60

abbrev pub event_key : {D : Type 0} → PortfolioUpdateEvent D → Text
event_key e = create_portfolio_key e.chain e.address e.provider

-- `handlePortfolioUpdate`, where `default_ttl` is that of the cache service.
unfoldable pub handle_portfolio_update :
    {S D : Type 0} → Manager S D → ℕ → PortfolioUpdateEvent D → S × Emitted D → S × Emitted D
handle_portfolio_update cache default_ttl e (s, out) =
    elim (cache_set cache default_ttl (event_key e) e.portfolio_data e.ttl_seconds s) [
      | err code ↦ (s, out)
      | ok s' ↦ (
        s',
        emit_portfolio_redis_updated e.chain e.chain_id e.address e.portfolio_data e.provider
            (some mongo_ttl_seconds) out,
      )
    ]
