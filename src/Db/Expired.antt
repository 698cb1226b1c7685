-- ===== src/Db/Expired.antt =====
-- `invalidateAddressSnapshot` of core/db/db.service.ts.
use onekey_balance_kit.Base.{
  ℕ, ◌≤◌, ◌≡◌, refl, ◌⊎◌, true, false, Option, none, some, List, [], ◌∷◌, Text, any, All, map,
  arith, text_beq_iff, inl, inr,
}
use onekey_balance_kit.Cache.{returned, threw, Reply-cases}
use onekey_balance_kit.Chains.{ChainName, value}
use onekey_balance_kit.Db.Filters.{matches, chain_is}
use onekey_balance_kit.Db.Saved.{IsMongo, changed}
use onekey_balance_kit.Db.{
  Models, set_expires_at, snapshot_filter, live_filter, get_portfolio_snapshot,
  invalidate_address_snapshot,
}
use onekey_balance_kit.Portfolio.{PortfolioSnapshot}
use onekey_balance_kit.Providers.{ProviderType}

module _ {P : Type 0} (chain : ChainName) (chain_id : ℕ) (address : Text) where
  -- A document of the address on this chain ID names the chain.
  abbrev pub IsOfChain : PortfolioSnapshot P → Type 0
  IsOfChain x =
      (matches (snapshot_filter chain_id address none) x ≡ true) → value chain ≡ value x.chain

  changed-expired :
      (provider : Option ProviderType) (now later : ℕ) (x : PortfolioSnapshot P)
      → now ≤ later
      → IsOfChain x
      → matches
          (live_filter chain_id address provider later)
          (changed (chain_is chain ∷ snapshot_filter chain_id address none) (set_expires_at now) x)
        ≡ false
  changed-expired none now later x h of_chain =
      ground (arith, of_chain, text_beq_iff (value chain) (value x.chain))
  changed-expired (some p) now later x h of_chain =
      ground (arith, of_chain, text_beq_iff (value chain) (value x.chain))

  changed-none_left :
      (provider : Option ProviderType) (now later : ℕ) (xs : List (PortfolioSnapshot P))
      → now ≤ later
      → All IsOfChain xs
      → any (matches (live_filter chain_id address provider later)) (
          map
            (changed (chain_is chain ∷ snapshot_filter chain_id address none) (set_expires_at now))
            xs)
        ≡ false
  changed-none_left provider now later [] h all = refl
  changed-none_left provider now later (x ∷ xs) h all =
      rw
        (
          changed-expired provider now later x h all.0,
          changed-none_left provider now later xs h all.1,
        )
        refl

  -- After the snapshots of an address were invalidated, looking for one of the chain ID and the address,
  -- whatever the provider, throws or finds none; the documents of the address name the chain of their chain ID.
  pub invalidate_address_snapshot-expires :
      {D : Type 0} (db : Models P D) (documents : D → List (PortfolioSnapshot P))
      (provider : Option ProviderType) (now later n : ℕ) (d d' : D)
      → IsMongo db documents
      → All IsOfChain (documents d)
      → invalidate_address_snapshot db chain chain_id address none now d ≡ returned (n, d')
      → now ≤ later
      → let r = get_portfolio_snapshot db chain_id address provider later d' in
        (r ≡ threw) ⊎ (r ≡ returned none)
  unfolding invalidate_address_snapshot get_portfolio_snapshot
  invalidate_address_snapshot-expires db documents provider now later n d d' laws all done h =
      let gone = changed-none_left provider now later (documents d) h all in
      let kept =
        laws.updated (chain_is chain ∷ snapshot_filter chain_id address none) (set_expires_at now) d
          d' n done in
      let live = live_filter chain_id address provider later in
      elim (Reply-cases (db.find_one live d')) [
        | inl failed ↦ inl failed
        | inr (none, e) ↦ inr e
        | inr (some x, e) ↦
            let test = laws.find_one-any live d' (some x) e in
            absurd (grind (arith, gone, kept, test))
      ]
