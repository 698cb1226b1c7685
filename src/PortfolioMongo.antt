-- ===== src/PortfolioMongo.antt =====
-- core/portfolio/portfolio-mongo.listener.ts: portfolio data that the cache has taken is stored in the
-- database, and the webhook of its chain is told to watch the address. `now` and
-- `checked` are readings of the clock; the map of the times of the last attempts is `processed_addresses`.
pub mod Throttle
pub mod Alive
pub mod Marked
pub mod Stored
pub mod Chain
pub mod Tests
use onekey_balance_kit.Base.{
  ℕ, ◌-◌, ◌*◌, Bool, true, false, ◌&&◌, ◌||◌, not, Option, none, some, List, [], ◌∷◌, ◌++◌, Text,
  truthy, given, ltb, nat_beq, if◌then◌else◌, Map, get, set, map,
}
use onekey_balance_kit.Cache.{Reply, returned, threw, Manager}
use onekey_balance_kit.Chains.{ChainName, value}
use onekey_balance_kit.Db.Filters.{
  chain_is, address_is, address_in, expires_after, expires_by, monitored, not_monitored,
}
use onekey_balance_kit.Db.{
  Change, set_monitored, unset_monitored, Models, save_portfolio_snapshot, transform_portfolio_data,
}
use onekey_balance_kit.Portfolio.{PortfolioData, PortfolioSnapshot}
use onekey_balance_kit.Providers.{ProviderType}
use onekey_balance_kit.Webhook.Account.{Config, External, Service}
use onekey_balance_kit.Webhook.Management.{update_webhook_addresses}

pub record PortfolioRedisUpdatedEvent (P : Type 0) : Type 0 where
  pub chain : ChainName
  pub chain_id : ℕ
  pub address : Text
  pub portfolio_data : PortfolioData P
  pub provider : Option ProviderType
  pub mongo_ttl_seconds : Option ℕ

pub record PortfolioMongoListener (W S D : Type 0) : Type 0 where
  pub processed_addresses : Map ℕ
  pub webhooks : Service W S
  pub database : D

-- The times that the handler of an event reads from the clock, between which it waits for the database: for
-- the expiry of the snapshot, for the record of the history, for the throttle, and for the queries
-- that tell whether an address has expired.
pub record Times : Type 0 where
  pub saved_at : ℕ
  pub written_at : ℕ
  pub attempted_at : ℕ
  pub checked_at : ℕ

abbrev pub process_interval : ℕ
process_interval = 5 * 60 * 1000

abbrev pub process_key : ChainName → Text → Text
process_key chain address = if truthy address then value chain ++ (b':' ∷ address) else value chain

-- `lastProcessTime && now - lastProcessTime < this.processInterval`; where the clock has gone back the
-- difference is negative, and so below the interval.
unfoldable pub recently_processed : Map ℕ → Text → ℕ → Bool
recently_processed processed key now = elim (get key processed) [
  | none ↦ false
  | some last ↦ not (nat_beq last 0) && ltb (now - last) process_interval
]

module _ {P D : Type 0} (db : Models P D) where
  abbrev addresses_of : Reply (List (PortfolioSnapshot P)) → List Text
  addresses_of threw = []
  addresses_of (returned xs) = map (λ x. x.address) xs

  abbrev pub found_any : Reply (List (PortfolioSnapshot P)) → Reply Bool
  found_any threw = threw
  found_any (returned []) = returned false
  found_any (returned (x ∷ xs)) = returned true

  abbrev kept_or : D → Reply (ℕ × D) → D
  kept_or d threw = d
  kept_or d (returned (n, d')) = d'

  unfoldable pub get_active_addresses : ChainName → ℕ → D → List Text
  get_active_addresses chain now d =
      addresses_of (db.find (chain_is chain ∷ expires_after now ∷ not_monitored ∷ []) d)

  unfoldable pub get_expired_addresses : ChainName → ℕ → D → List Text
  get_expired_addresses chain now d =
      addresses_of (db.find (chain_is chain ∷ expires_by now ∷ monitored ∷ []) d)

  unfoldable pub mark_addresses_as_monitored : ChainName → List Text → D → D
  mark_addresses_as_monitored chain addresses d =
      kept_or d (db.update_many (chain_is chain ∷ address_in addresses ∷ []) set_monitored d)

  unfoldable pub unmark_expired_addresses : ChainName → List Text → D → D
  unmark_expired_addresses chain addresses d =
      kept_or d (db.update_many (chain_is chain ∷ address_in addresses ∷ []) unset_monitored d)

  unfoldable pub is_address_active : ChainName → Text → ℕ → D → Reply Bool
  is_address_active chain address now d =
      found_any (db.find (chain_is chain ∷ address_is address ∷ expires_after now ∷ []) d)

  unfoldable pub is_address_monitored : ChainName → Text → D → Reply Bool
  is_address_monitored chain address d =
      found_any (db.find (chain_is chain ∷ address_is address ∷ monitored ∷ []) d)

  -- The marks that follow an update that the webhook has taken, each where it has addresses.
  unfoldable pub mark_updated : ChainName → (add remove : List Text) → D → D
  unfolding mark_addresses_as_monitored unmark_expired_addresses
  mark_updated chain [] [] d = d
  mark_updated chain [] (r ∷ rs) d = unmark_expired_addresses chain (r ∷ rs) d
  mark_updated chain (a ∷ rest) [] d = mark_addresses_as_monitored chain (a ∷ rest) d
  mark_updated chain (a ∷ rest) (r ∷ rs) d =
      unmark_expired_addresses chain (r ∷ rs) (mark_addresses_as_monitored chain (a ∷ rest) d)

module _ {P W S D : Type 0} (ext : External W) (cache : Manager S Text) (config : Config)
    (db : Models P D) where
  unfoldable pub push_addresses :
      ChainName
      → (add remove : List Text) → ℕ
      → PortfolioMongoListener W S D
      → PortfolioMongoListener W S D
  unfolding mark_updated
  push_addresses chain add remove now s =
      let (success, webhooks) =
        update_webhook_addresses ext cache config chain add remove now s.webhooks in
      record s {
        webhooks = webhooks;
        database = if success then mark_updated db chain add remove s.database else s.database;
      }

  -- The part of `updateWebhookAddresses` for an address; a query that throws ends it.
  unfoldable pub update_address :
      ChainName → Text → ℕ → PortfolioMongoListener W S D → PortfolioMongoListener W S D
  unfolding push_addresses
  update_address chain address now s = elim (is_address_active db chain address now s.database) [
    | threw ↦ s
    | returned is_active ↦ elim (is_address_monitored db chain address s.database) [
      | threw ↦ s
      | returned is_monitored ↦
          if is_active && not is_monitored
          then push_addresses chain (address ∷ []) [] now s
          else if not is_active && is_monitored
          then push_addresses chain [] (address ∷ []) now s
          else s
    ]
  ]

  -- The part for a whole chain.
  unfoldable pub update_chain :
      ChainName → ℕ → PortfolioMongoListener W S D → PortfolioMongoListener W S D
  unfolding push_addresses
  update_chain chain now s =
      let active = get_active_addresses db chain now s.database in
      let expired = get_expired_addresses db chain now s.database in
      elim (active ++ expired) [ [] ↦ s | _ ∷ _ ↦ push_addresses chain active expired now s ]

  -- `updateWebhookAddresses` of the listener.
  unfoldable pub update_monitored :
      ChainName
      → Text
      → (now checked : ℕ) → PortfolioMongoListener W S D
      → PortfolioMongoListener W S D
  unfolding update_address update_chain
  update_monitored chain address now checked s =
      let s' = record s {
        processed_addresses = set (process_key chain address) now s.processed_addresses;
      } in
      if recently_processed s.processed_addresses (process_key chain address) now
      then s
      else if truthy address
      then update_address chain address checked s'
      else update_chain chain checked s'

  -- `handlePortfolioRedisUpdated`; where the snapshot is not saved, nothing else is done.
  unfoldable pub handle_portfolio_redis_updated :
      PortfolioRedisUpdatedEvent P
      → Times
      → PortfolioMongoListener W S D
      → PortfolioMongoListener W S D
  unfolding update_monitored
  handle_portfolio_redis_updated e t s =
      let (saved, d) =
        save_portfolio_snapshot db e.chain e.chain_id e.address
          (transform_portfolio_data e.portfolio_data) e.provider e.mongo_ttl_seconds t.saved_at
          t.written_at s.database in
      let s' = record s { database = d } in
      elim saved [
        | threw ↦ s'
        | returned _ ↦ update_monitored e.chain e.address t.attempted_at t.checked_at s'
      ]
