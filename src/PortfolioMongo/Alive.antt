-- ===== src/PortfolioMongo/Alive.antt =====
-- That the throttle of the listener of core/portfolio lets every request through in the end.
use onekey_balance_kit.Base.{
  ℕ, ◌+◌, ◌≤◌, ◌≡◌, refl, ap, ◌∙◌, true, false, some, List, [], ◌∷◌, Text, truthy, get, get-set,
  get-set_self, All, Option-cases, inl, inr, arith,
}
use onekey_balance_kit.Cache.{Manager, returned}
use onekey_balance_kit.Db.{Models}
use onekey_balance_kit.PortfolioMongo.{
  update_monitored, update_address, push_addresses, is_address_active, is_address_monitored,
  PortfolioMongoListener, process_interval, process_key, recently_processed,
}
use onekey_balance_kit.PortfolioMongo.Throttle.{Request, after_request, update_monitored-processed}
use onekey_balance_kit.Webhook.Account.{Config, External}

-- No recorded time is later than `t`.
abbrev pub IsUpTo : {W S D : Type 0} → ℕ → PortfolioMongoListener W S D → Type 0
IsUpTo t s = (key : Text) (u : ℕ) → get key s.processed_addresses ≡ some u → u ≤ t

module _ {P W S D : Type 0} (ext : External W) (cache : Manager S Text) (config : Config)
    (db : Models P D) where
  -- The state after requests.
  unfoldable pub run_requests :
      List Request → PortfolioMongoListener W S D → PortfolioMongoListener W S D
  run_requests [] s = s
  run_requests (r ∷ rs) s = run_requests rs (after_request ext cache config db r s)

  after_request-IsUpTo :
      (t : ℕ) (r : Request) (s : PortfolioMongoListener W S D)
      → r.now ≤ t
      → IsUpTo t s
      → IsUpTo t (after_request ext cache config db r s)
  after_request-IsUpTo t r s early h key u e = ground (
    arith,
    h key u,
    update_monitored-processed ext cache config db r.chain r.address r.now r.checked s,
    get-set (process_key r.chain r.address) key r.now s.processed_addresses,
  )

  run_requests-IsUpTo :
      (t : ℕ) (rs : List Request) (s : PortfolioMongoListener W S D)
      → All (λ r. r.now ≤ t) rs
      → IsUpTo t s
      → IsUpTo t (run_requests rs s)
  unfolding run_requests
  run_requests-IsUpTo t [] s early h = h
  run_requests-IsUpTo t (r ∷ rs) s early h =
      run_requests-IsUpTo t rs (after_request ext cache config db r s) early.1
        (after_request-IsUpTo t r s early.0 h)

  not_held_back :
      (t : ℕ) (rs : List Request) (r : Request) (s : PortfolioMongoListener W S D)
      → IsUpTo t s
      → All (λ q. q.now ≤ t) rs
      → t + process_interval ≤ r.now
      → recently_processed
          (run_requests rs s).processed_addresses
          (process_key r.chain r.address)
          r.now
        ≡ false
  unfolding recently_processed
  not_held_back t rs r s h early late =
      let key = process_key r.chain r.address in
      elim (Option-cases (get key (run_requests rs s).processed_addresses)) [
        | inl fresh ↦ rw (recently_processed, fresh) refl
        | inr (u, there) ↦
            let before = run_requests-IsUpTo t rs s early h key u there in
            rw (recently_processed, there) (ground (arith, before, late))
      ]

  -- A request for an address that is made five minutes or more after every request before it is served,
  -- whatever those were and whether they succeeded: if the database then tells that the address is
  -- active and not marked, the webhooks and the database become what adding the address to the
  -- webhook of its chain makes of them, and the time of the request is recorded.
  pub run_requests-attempted :
      (t : ℕ) (rs : List Request) (r : Request) (s : PortfolioMongoListener W S D)
      → IsUpTo t s
      → All (λ q. q.now ≤ t) rs
      → t + process_interval ≤ r.now
      → truthy r.address ≡ true
      → is_address_active db r.chain r.address r.checked (run_requests rs s).database
        ≡ returned true
      → is_address_monitored db r.chain r.address (run_requests rs s).database ≡ returned false
      → let before = run_requests rs s in
        let after = after_request ext cache config db r before in
        let added =
          push_addresses ext cache config db r.chain (r.address ∷ []) [] r.checked before in
        (after.webhooks ≡ added.webhooks)
        × (after.database ≡ added.database)
        × (get (process_key r.chain r.address) after.processed_addresses ≡ some r.now)
  unfolding update_monitored update_address push_addresses
  run_requests-attempted t rs r s h early late given_ active unmarked =
      let before = run_requests rs s in
      let due = not_held_back t rs r s h early late in
      (
        rw (update_monitored, due, given_, update_address, active, unmarked) refl,
        rw (update_monitored, due, given_, update_address, active, unmarked) refl,
        ap (get (process_key r.chain r.address)) (
              update_monitored-processed ext cache config db r.chain r.address r.now r.checked
                before)
            ∙ rw due
                (get-set_self (process_key r.chain r.address) r.now before.processed_addresses),
      )
