-- ===== src/PortfolioMongo/Stored.antt =====
-- `handlePortfolioRedisUpdated` of core/portfolio: the snapshot and the webhook together.
use onekey_balance_kit.Base.{get, Map, ◌-◌, ℕ, ◌<◌, ◌≡◌, true, false, some, List, [], ◌∷◌, Text}
use onekey_balance_kit.Cache.{Manager, Reply, returned, threw}
use onekey_balance_kit.Chains.{ChainName}
use onekey_balance_kit.Db.Filters.{chain_is, address_is, expires_after, monitored}
use onekey_balance_kit.Db.{Models, save_portfolio_snapshot, transform_portfolio_data}
use onekey_balance_kit.Portfolio.{PortfolioSnapshot}
use onekey_balance_kit.PortfolioMongo.Marked.{is_active, is_monitored}
use onekey_balance_kit.PortfolioMongo.{
  Times, PortfolioRedisUpdatedEvent, PortfolioMongoListener, process_key, process_interval,
  push_addresses,
}
use onekey_balance_kit.Webhook.Account.{Config, External, Service}

module _ {P W S D : Type 0} (ext : External W) (cache : Manager S Text) (config : Config)
    (db : Models P D) (documents : D → List (PortfolioSnapshot P)) where
  -- Why an address with an unexpired snapshot is left alone: it was turned to less than five minutes before,
  -- a query throws, or it is marked already.
  pub data IsLeft (chain : ChainName) (address : Text) (attempted now : ℕ) (times : Map ℕ) (d : D)
      : Type 0 where
    recent :
        (last : ℕ)
        → get (process_key chain address) times ≡ some last
        → attempted - last < process_interval
        → IsLeft chain address attempted now times d
    unexpired_failed :
        db.find (chain_is chain ∷ address_is address ∷ expires_after now ∷ []) d ≡ threw
        → IsLeft chain address attempted now times d
    monitored_failed :
        db.find (chain_is chain ∷ address_is address ∷ monitored ∷ []) d ≡ threw
        → IsLeft chain address attempted now times d
    marked :
        is_monitored db documents chain address d ≡ true
        → IsLeft chain address attempted now times d

  -- The webhooks are as they were for a reason, or the address is added to the one of its chain.
  data IsPushed (chain : ChainName) (address : Text) (attempted now : ℕ) (times : Map ℕ)
      (webhooks : Service W S) (d : D) (s' : PortfolioMongoListener W S D) : Type 0 where
    left_alone :
        s'.webhooks ≡ webhooks
        → IsLeft chain address attempted now times d
        → IsPushed chain address attempted now times webhooks d s'
    pushed :
        (s : PortfolioMongoListener W S D)
        → s.webhooks ≡ webhooks
        → s.database ≡ d
        → is_active db documents chain address now s.database ≡ true
        → is_monitored db documents chain address s.database ≡ false
        → s' ≡ push_addresses ext cache config db chain (address ∷ []) [] now s
        → IsPushed chain address attempted now times webhooks d s'

  abbrev pub save_of : PortfolioRedisUpdatedEvent P → Times → D → Reply (PortfolioSnapshot P) × D
  save_of e t d =
      save_portfolio_snapshot db e.chain e.chain_id e.address
        (transform_portfolio_data e.portfolio_data) e.provider e.mongo_ttl_seconds t.saved_at
        t.written_at d

  -- The snapshot was not saved, and the webhooks are as they were. Or it was saved, and they are so for a
  -- reason. Or the snapshot of the event was saved, no document of the address on
  -- the chain was marked in the database that the save has left, where one is unexpired, and the
  -- address is added to the webhook of its chain.
  pub data IsAdded (e : PortfolioRedisUpdatedEvent P) (t : Times)
      (before after : PortfolioMongoListener W S D) : Type 0 where
    not_saved :
        (save_of e t before.database).0 ≡ threw
        → after.webhooks ≡ before.webhooks
        → IsAdded e t before after
    untouched :
        (x : PortfolioSnapshot P)
        → (save_of e t before.database).0 ≡ returned x
        → after.webhooks ≡ before.webhooks
        → IsLeft e.chain e.address t.attempted_at t.checked_at before.processed_addresses
            (save_of e t before.database).1
        → IsAdded e t before after
    added :
        (x : PortfolioSnapshot P) (s : PortfolioMongoListener W S D)
        → (save_of e t before.database).0 ≡ returned x
        → s.webhooks ≡ before.webhooks
        → s.database ≡ (save_of e t before.database).1
        → is_active db documents e.chain e.address t.checked_at s.database ≡ true
        → is_monitored db documents e.chain e.address s.database ≡ false
        → after ≡ push_addresses ext cache config db e.chain (e.address ∷ []) [] t.checked_at s
        → IsAdded e t before after
