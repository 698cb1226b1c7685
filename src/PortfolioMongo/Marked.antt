-- ===== src/PortfolioMongo/Marked.antt =====
-- What the listener of core/portfolio asks of a webhook, and the marks that it sets.
use onekey_balance_kit.Base.{
  ℕ, ◌≡◌, refl, Bool, true, false, ◌&&◌, not, List, [], ◌∷◌, Text, any, map, if◌then◌else◌,
  Bool-cases, inl, inr, arith, ◌⊎◌,
}
use onekey_balance_kit.Cache.{Manager, returned, threw, Reply-cases}
use onekey_balance_kit.Chains.{ChainName}
use onekey_balance_kit.Db.Filters.{
  Condition, matches, chain_is, address_is, address_in, expires_after, monitored, not_monitored,
}
use onekey_balance_kit.Db.Saved.{IsMongo, changed}
use onekey_balance_kit.Db.{Models, set_monitored}
use onekey_balance_kit.Portfolio.{PortfolioSnapshot}
use onekey_balance_kit.PortfolioMongo.{
  PortfolioMongoListener, found_any, is_address_active, is_address_monitored, push_addresses,
  update_address, mark_updated, mark_addresses_as_monitored,
}
use onekey_balance_kit.Webhook.Management.{update_webhook_addresses}
use onekey_balance_kit.Webhook.Account.{Config, External}

module _ {P D : Type 0} (db : Models P D) (documents : D → List (PortfolioSnapshot P)) where
  any-true :
      (xs : List (PortfolioSnapshot P)) → found_any db (returned xs) ≡ returned (any (λ _. true) xs)
  any-true [] = refl
  any-true (x ∷ xs) = refl

  any-and-true :
      (test : PortfolioSnapshot P → Bool) (xs : List (PortfolioSnapshot P))
      → any (λ x. test x && true) xs ≡ any test xs
  any-and-true test [] = refl
  any-and-true test (x ∷ xs) = ground (arith, any-and-true test xs)

  -- Whether a query finds a document, as a test of the documents.
  found_any_lem :
      (f : List Condition) (d : D) (b : Bool)
      → IsMongo db documents
      → found_any db (db.find f d) ≡ returned b
      → b ≡ any (matches f) (documents d)
  found_any_lem f d b laws e = elim (Reply-cases (db.find f d)) [
    | inl failed ↦ absurd (ground (arith, failed, e))
    | inr (xs, found) ↦
        let test = laws.find-any f d xs (λ _. true) found in
        grind (arith, test, any-true, any-and-true, found, e)
  ]

  abbrev pub is_active : ChainName → Text → ℕ → D → Bool
  is_active chain address now d =
      any (matches (chain_is chain ∷ address_is address ∷ expires_after now ∷ [])) (documents d)

  abbrev pub is_monitored : ChainName → Text → D → Bool
  is_monitored chain address d =
      any (matches (chain_is chain ∷ address_is address ∷ monitored ∷ [])) (documents d)

  -- Of an address that can be looked up without an error, one with an unexpired snapshot and no mark is
  -- added to the webhook of the chain, one with a mark and no unexpired snapshot is removed, and
  -- otherwise nothing is done.
  pub update_address_lem :
      {W S : Type 0} (ext : External W) (cache : Manager S Text) (config : Config)
      (chain : ChainName) (address : Text) (now : ℕ) (s : PortfolioMongoListener W S D) (a m : Bool)
      → IsMongo db documents
      → is_address_active db chain address now s.database ≡ returned a
      → is_address_monitored db chain address s.database ≡ returned m
      → let active = is_active chain address now s.database in
        let marked = is_monitored chain address s.database in
        update_address ext cache config db chain address now s ≡ (
          if active && not marked
          then push_addresses ext cache config db chain (address ∷ []) [] now s
          else if not active && marked
          then push_addresses ext cache config db chain [] (address ∷ []) now s
          else s)
  unfolding is_address_active is_address_monitored update_address
  update_address_lem ext cache config chain address now s a m laws ea em =
      let ha =
        found_any_lem (chain_is chain ∷ address_is address ∷ expires_after now ∷ []) s.database a
          laws ea in
      let hm =
        found_any_lem (chain_is chain ∷ address_is address ∷ monitored ∷ []) s.database m laws em in
      rw (ea, em, update_address, ha, hm) refl

  -- The documents of a chain and an address, all marked.
  abbrev pub unmarked : ChainName → Text → D → Bool
  unmarked chain address d =
      any (matches (chain_is chain ∷ address_is address ∷ not_monitored ∷ [])) (documents d)

  marked-unmatched :
      (chain : ChainName) (address : Text) (x : PortfolioSnapshot P)
      → matches
          (chain_is chain ∷ address_is address ∷ not_monitored ∷ [])
          (changed (chain_is chain ∷ address_in (address ∷ []) ∷ []) set_monitored x)
        ≡ false
  marked-unmatched chain address x =
      elim (Bool-cases (matches (chain_is chain ∷ address_in (address ∷ []) ∷ []) x)) [
        | inl hit ↦ rw hit (ground arith)
        | inr miss ↦ rw miss (ground (arith, miss))
      ]

  marked-none_left :
      (chain : ChainName) (address : Text) (xs : List (PortfolioSnapshot P))
      → any
          (matches (chain_is chain ∷ address_is address ∷ not_monitored ∷ []))
          (map (changed (chain_is chain ∷ address_in (address ∷ []) ∷ []) set_monitored) xs)
        ≡ false
  marked-none_left chain address [] = refl
  marked-none_left chain address (x ∷ xs) =
      rw (marked-unmatched chain address x, marked-none_left chain address xs) refl

  -- An address that the webhook has taken is marked in every document of its chain, unless the database
  -- refuses the marks; where the webhook refuses it, the database is as it was.
  pub push_addresses_cases :
      {W S : Type 0} (ext : External W) (cache : Manager S Text) (config : Config)
      (chain : ChainName) (address : Text) (now : ℕ) (s : PortfolioMongoListener W S D)
      → IsMongo db documents
      → let s' = push_addresses ext cache config db chain (address ∷ []) [] now s in
        ((update_webhook_addresses ext cache config chain (address ∷ []) [] now s.webhooks).0
            ≡ false)
          × (s'.database ≡ s.database)
        ⊎ ((unmarked chain address s'.database ≡ false)
            ⊎ ((db.update_many
                    (chain_is chain ∷ address_in (address ∷ []) ∷ [])
                    set_monitored
                    s.database
                  ≡ threw)
                × (s'.database ≡ s.database)))
  unfolding push_addresses mark_updated mark_addresses_as_monitored
  push_addresses_cases ext cache config chain address now s laws =
      let accepted =
        (update_webhook_addresses ext cache config chain (address ∷ []) [] now s.webhooks).0 in
      let f = chain_is chain ∷ address_in (address ∷ []) ∷ [] in
      elim (Bool-cases accepted) [
        | inr refused ↦ rw (refused, push_addresses) (inl (refl, refl))
        | inl taken ↦ elim (Reply-cases (db.update_many f set_monitored s.database)) [
          | inl failed ↦ rw (taken, failed, push_addresses) (inr (inr (refl, refl)))
          | inr ((n, d'), done) ↦
              let kept = laws.updated f set_monitored s.database d' n done in
              rw (taken, done, push_addresses, kept)
                (inr (inl (marked-none_left chain address (documents s.database))))
        ]
      ]
