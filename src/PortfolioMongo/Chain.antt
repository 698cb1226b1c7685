-- ===== src/PortfolioMongo/Chain.antt =====
-- core/cache/portfolio-mongo.listener.ts: the listener that looks after a whole chain at a time. It has
-- the queries, the marks and the interval of the one in core/portfolio, and a map of its own.
use onekey_balance_kit.Base.{
  ℕ, ◌≡◌, refl, ◌&&◌, List, [], ◌∷◌, Text, any, map, text_beq, if◌then◌else◌, set, arith,
}
use onekey_balance_kit.Cache.{Manager, returned}
use onekey_balance_kit.Chains.{ChainName, value}
use onekey_balance_kit.Db.Filters.{
  Condition, matches, chain_is, expires_after, expires_by, monitored, not_monitored,
}
use onekey_balance_kit.Db.Saved.{IsMongo}
use onekey_balance_kit.Db.{Models}
use onekey_balance_kit.Portfolio.{PortfolioSnapshot}
use onekey_balance_kit.PortfolioMongo.{
  PortfolioMongoListener, recently_processed, addresses_of, get_active_addresses,
  get_expired_addresses, update_chain,
}
use onekey_balance_kit.Webhook.Account.{Config, External, member}

module _ {P W S D : Type 0} (ext : External W) (cache : Manager S Text) (config : Config)
    (db : Models P D) where
  -- The field `processed_addresses` is the `processedChains` of this listener.
  unfoldable pub handle_portfolio_redis_update :
      ChainName → ℕ → PortfolioMongoListener W S D → PortfolioMongoListener W S D
  unfolding update_chain recently_processed
  handle_portfolio_redis_update chain now s =
      if recently_processed s.processed_addresses (value chain) now
      then s
      else update_chain ext cache config db chain now
          (record s { processed_addresses = set (value chain) now s.processed_addresses })

module _ {P D : Type 0} (db : Models P D) (documents : D → List (PortfolioSnapshot P)) where
  member-addresses :
      (address : Text) (xs : List (PortfolioSnapshot P))
      → member address (map (λ x. x.address) xs) ≡ any (λ x. text_beq x.address address) xs
  member-addresses address [] = refl
  member-addresses address (x ∷ xs) = ground (arith, member-addresses address xs)

  queried_lem :
      (f : List Condition) (address : Text) (d : D) (xs : List (PortfolioSnapshot P))
      → IsMongo db documents
      → db.find f d ≡ returned xs
      → member address (addresses_of db (db.find f d))
        ≡ any (λ x. matches f x && text_beq x.address address) (documents d)
  queried_lem f address d xs laws e =
      rw (e, member-addresses address xs) (laws.find-any f d xs (λ x. text_beq x.address address) e)

  -- The addresses that a whole chain is asked for, where the queries end without an error: those with an
  -- unexpired and unmarked document are added, those with an expired and marked one are removed.
  pub chain_addresses_iff :
      (chain : ChainName) (address : Text) (now : ℕ) (d : D) (xs ys : List (PortfolioSnapshot P))
      → IsMongo db documents
      → let active = chain_is chain ∷ expires_after now ∷ not_monitored ∷ [] in
        let expired = chain_is chain ∷ expires_by now ∷ monitored ∷ [] in
        db.find active d ≡ returned xs
        → db.find expired d ≡ returned ys
        → (member address (get_active_addresses db chain now d)
            ≡ any (λ x. matches active x && text_beq x.address address) (documents d))
          × (member address (get_expired_addresses db chain now d)
              ≡ any (λ x. matches expired x && text_beq x.address address) (documents d))
  unfolding get_active_addresses get_expired_addresses
  chain_addresses_iff chain address now d xs ys laws ex ey = (
    queried_lem (chain_is chain ∷ expires_after now ∷ not_monitored ∷ []) address d xs laws ex,
    queried_lem (chain_is chain ∷ expires_by now ∷ monitored ∷ []) address d ys laws ey,
  )
