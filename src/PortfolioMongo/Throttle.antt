-- ===== src/PortfolioMongo/Throttle.antt =====
-- How often the listener of core/portfolio turns to a webhook.
use onekey_balance_kit.Base.{
  ℕ, ◌-◌, ◌<◌, ◌≤◌, ◌≡◌, ◌⊎◌, refl, ◌∙◌, Bool, true, false, ◌&&◌, not, Option, none, some, List, [],
  ◌∷◌, Text, text_beq, text_beq_iff, if◌then◌else◌, get, set, get-set, All, Bool-cases, inl, inr,
  arith,
}
use onekey_balance_kit.Cache.{Manager}
use onekey_balance_kit.Chains.{ChainName}
use onekey_balance_kit.Db.{Models}
use onekey_balance_kit.PortfolioMongo.{
  PortfolioMongoListener, process_interval, process_key, recently_processed, push_addresses,
  update_address, update_chain, update_monitored,
}
use onekey_balance_kit.Webhook.Account.{Config, External}

-- A request of the listener to itself: a chain, an address, the time at which it is made and the one at which
-- the database is asked for it.
pub record Request : Type 0 where
  pub chain : ChainName
  pub address : Text
  pub now : ℕ
  pub checked : ℕ

-- The webhooks and the database are as they were.
abbrev pub IsIdle : {W S D : Type 0} → (s s' : PortfolioMongoListener W S D) → Type 0
IsIdle s s' = (s'.webhooks ≡ s.webhooks) × (s'.database ≡ s.database)

-- The time is an interval or more behind the last one, if there is any.
abbrev pub IsDue : Option ℕ → ℕ → Type 0
IsDue none now = Unit
IsDue (some last) now = process_interval ≤ now - last

module _ {P W S D : Type 0} (ext : External W) (cache : Manager S Text) (config : Config)
    (db : Models P D) where
  -- An attempt itself leaves the times alone.
  update_address-keeps :
      (chain : ChainName) (address : Text) (now : ℕ) (s : PortfolioMongoListener W S D)
      → (update_address ext cache config db chain address now s).processed_addresses
        ≡ s.processed_addresses
  unfolding update_address push_addresses
  update_address-keeps chain address now s = ground arith

  update_chain-keeps :
      (chain : ChainName) (now : ℕ) (s : PortfolioMongoListener W S D)
      → (update_chain ext cache config db chain now s).processed_addresses ≡ s.processed_addresses
  unfolding update_chain push_addresses
  update_chain-keeps chain now s = ground arith

  pub update_monitored-processed :
      (chain : ChainName) (address : Text) (now checked : ℕ) (s : PortfolioMongoListener W S D)
      → (update_monitored ext cache config db chain address now checked s).processed_addresses ≡ (
          if recently_processed s.processed_addresses (process_key chain address) now
          then s.processed_addresses
          else set (process_key chain address) now s.processed_addresses)
  unfolding update_monitored
  update_monitored-processed chain address now checked s =
      grind (arith, update_address-keeps, update_chain-keeps)

  -- Whether a request is an attempt for a key.
  abbrev pub attempts_key : Text → Request → PortfolioMongoListener W S D → Bool
  attempts_key key r s =
      text_beq (process_key r.chain r.address) key
      && not (recently_processed s.processed_addresses (process_key r.chain r.address) r.now)

  abbrev pub after_request : Request → PortfolioMongoListener W S D → PortfolioMongoListener W S D
  after_request r s = update_monitored ext cache config db r.chain r.address r.now r.checked s

  attempt-recorded :
      (key : Text) (r : Request) (s : PortfolioMongoListener W S D)
      → attempts_key key r s ≡ true
      → get key (after_request r s).processed_addresses ≡ some r.now
  attempt-recorded key r s h = ground (
    arith,
    update_monitored-processed r.chain r.address r.now r.checked s,
    text_beq_iff (process_key r.chain r.address) key,
    get-set (process_key r.chain r.address) key r.now s.processed_addresses,
  )

  other-kept :
      (key : Text) (r : Request) (s : PortfolioMongoListener W S D)
      → attempts_key key r s ≡ false
      → get key (after_request r s).processed_addresses ≡ get key s.processed_addresses
  other-kept key r s h = ground (
    arith,
    update_monitored-processed r.chain r.address r.now r.checked s,
    get-set (process_key r.chain r.address) key r.now s.processed_addresses,
  )

  attempt-spaced :
      (key : Text) (r : Request) (s : PortfolioMongoListener W S D) (last : ℕ)
      → attempts_key key r s ≡ true
      → 0 < last
      → get key s.processed_addresses ≡ some last
      → process_interval ≤ r.now - last
  unfolding recently_processed
  attempt-spaced key r s last h positive e =
      ground (arith, text_beq_iff (process_key r.chain r.address) key)

  -- A request that the throttle holds back is idle.
  held_back-IsIdle :
      (r : Request) (s : PortfolioMongoListener W S D)
      → recently_processed s.processed_addresses (process_key r.chain r.address) r.now ≡ true
      → IsIdle s (after_request r s)
  unfolding update_monitored
  held_back-IsIdle r s recent = rw (update_monitored, recent) (refl, refl)

  -- In a run, a request for the key changes the webhooks and the database only if it is due after the last
  -- one that did.
  abbrev pub IsSpaced : Text → Option ℕ → List Request → PortfolioMongoListener W S D → Type 0
  IsSpaced key last [] s = Unit
  IsSpaced key last (r ∷ rs) s =
      (IsIdle s (after_request r s) × IsSpaced key last rs (after_request r s))
      ⊎ ((text_beq (process_key r.chain r.address) key ≡ false)
          × IsSpaced key last rs (after_request r s))
      ⊎ (IsDue last r.now × IsSpaced key (some r.now) rs (after_request r s))

  -- A request that is no attempt is for another key, or idle.
  skipped-IsSpaced :
      (key : Text) (last : Option ℕ) (r : Request) (rs : List Request)
      (s : PortfolioMongoListener W S D)
      → attempts_key key r s ≡ false
      → IsSpaced key last rs (after_request r s)
      → IsSpaced key last (r ∷ rs) s
  skipped-IsSpaced key last r rs s skipped rest =
      elim (Bool-cases (text_beq (process_key r.chain r.address) key)) [
        | inr other ↦ inr (inl (other, rest))
        | inl same ↦
            let recent : recently_processed s.processed_addresses (process_key r.chain r.address)
                  r.now
                ≡ true =
              ground (arith, skipped, same) in
            inl (held_back-IsIdle r s recent, rest)
      ]

  attempts-IsSpaced_from :
      (key : Text) (rs : List Request) (s : PortfolioMongoListener W S D) (last : ℕ)
      → All (λ r. 0 < r.now) rs
      → 0 < last
      → get key s.processed_addresses ≡ some last
      → IsSpaced key (some last) rs s
  attempts-IsSpaced_from key [] s last h positive e = tt
  attempts-IsSpaced_from key (r ∷ rs) s last h positive e =
      elim (Bool-cases (attempts_key key r s)) [
        | inl made ↦ inr (
            inr (
              attempt-spaced key r s last made positive e,
              attempts-IsSpaced_from key rs (after_request r s) r.now h.1 h.0
                  (attempt-recorded key r s made),
            ))
        | inr skipped ↦ skipped-IsSpaced key (some last) r rs s skipped (
            attempts-IsSpaced_from key rs (after_request r s) last h.1 positive
              (other-kept key r s skipped ∙ e))
      ]

  -- In every run of requests, those for one chain, or for one of its addresses, change the webhooks and the
  -- database at most once in five minutes: each is idle, or an interval behind the last one that was not,
  -- however the clock moves; no request is made at time 0.
  pub attempts-IsSpaced :
      (key : Text) (rs : List Request) (s : PortfolioMongoListener W S D)
      → All (λ r. 0 < r.now) rs
      → IsSpaced key none rs s
  attempts-IsSpaced key [] s h = tt
  attempts-IsSpaced key (r ∷ rs) s h = elim (Bool-cases (attempts_key key r s)) [
    | inl made ↦ inr (
        inr (
          tt,
          attempts-IsSpaced_from key rs (after_request r s) r.now h.1 h.0
              (attempt-recorded key r s made),
        ))
    | inr skipped ↦
        skipped-IsSpaced key none r rs s skipped (attempts-IsSpaced key rs (after_request r s) h.1)
  ]
