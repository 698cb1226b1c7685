-- ===== src/Webhook/Reconciliation/Kept.antt =====
-- Which addresses the clean-up of webhook/webhook-address-reconciliation.service.ts leaves alone.
use onekey_balance_kit.Base.{
  ℕ, ◌≡◌, refl, ap, ◌∙◌, Bool, true, false, ◌&&◌, not, List, [], ◌∷◌, Text, text_beq, keep_if,
  arith, Bool-cases, inl, inr, text_beq_iff, ◌⊎◌,
}
use onekey_balance_kit.Cache.{Reply, Reply-cases, returned, threw, Manager}
use onekey_balance_kit.Chains.{ChainName}
use onekey_balance_kit.Webhook.Account.{Config, External, Service, member}
use onekey_balance_kit.Webhook.Management.{get_webhook_details_with_sdk, update_webhook_addresses}
use onekey_balance_kit.Webhook.Management.Tracking.{tracks}
use onekey_balance_kit.Webhook.Management.Addresses.{update_webhook_addresses_cases}
use onekey_balance_kit.Webhook.Reconciliation.{
  Snapshots, Reconciliation, is_default, stale_addresses, remove_stale, reconcile_chain_addresses,
}

-- An address to remove: not the default one, and without an unexpired snapshot.
abbrev pub is_missing : Reply Bool → Bool
is_missing threw = false
is_missing (returned found) = not found

abbrev pub is_stale : {D : Type 0} → Snapshots D → ChainName → ℕ → D → Text → Bool
is_stale db chain now d a = not (is_default a) && is_missing (db.find_unexpired chain a now d)

-- If no query throws, the loop over a webhook's addresses collects exactly those that are not the
-- default address and have no unexpired snapshot, in their order.
pub stale_addresses-eq-keep_if :
    {D : Type 0} (db : Snapshots D) (chain : ChainName) (now : ℕ) (d : D)
    (addresses stale : List Text)
    → stale_addresses db chain now d addresses ≡ returned stale
    → stale ≡ keep_if (is_stale db chain now d) addresses
unfolding stale_addresses
stale_addresses-eq-keep_if db chain now d [] stale e = ground arith
stale_addresses-eq-keep_if db chain now d (a ∷ rest) stale e =
    elim (Reply-cases (stale_addresses db chain now d rest)) [
      | inl failed ↦ ground arith
      | inr (xs, found) ↦ ground (arith, stale_addresses-eq-keep_if db chain now d rest xs)
    ]

pub member-keep_if :
    (a : Text) (test : Text → Bool) (xs : List Text)
    → test a ≡ false
    → member a (keep_if test xs) ≡ false
member-keep_if a test [] h = refl
member-keep_if a test (x ∷ xs) h = elim (Bool-cases (test x)) [
  | inl holds ↦
      let other : text_beq x a ≡ false = ground (arith, text_beq_iff x a) in
      rw (holds, other) (member-keep_if a test xs h)
  | inr fails ↦ rw fails (member-keep_if a test xs h)
]

module _ {W S D : Type 0} (ext : External W) (cache : Manager S Text) (config : Config)
    (db : Snapshots D) where
  update-keeps :
      (chain : ChainName) (remove : List Text) (now : ℕ) (s : Service W S) (a v : Text)
      → member a remove ≡ false
      → tracks
          (update_webhook_addresses ext cache config chain [] remove now s).1.address_to_webhook
          a
          v
        ≡ tracks s.address_to_webhook a v
  update-keeps chain remove now s a v h =
      elim (update_webhook_addresses_cases ext cache config chain [] remove now s) [
        | inl (done, (id, found, updated)) ↦ updated a v ∙ ground arith
        | inr (failed, same) ↦ rw same
      ]

  remove_stale-keeps :
      (chain : ChainName) (stale : List Text) (now : ℕ) (r : Reconciliation W S D) (a v : Text)
      → member a stale ≡ false
      → tracks (remove_stale ext cache config db chain stale now r).service.address_to_webhook a v
        ≡ tracks r.service.address_to_webhook a v
  unfolding remove_stale
  remove_stale-keeps chain [] now r a v h = refl
  remove_stale-keeps chain (x ∷ xs) now r a v h =
      ground (arith, update-keeps chain (x ∷ xs) now r.service a v h)

  details-keeps :
      (chain : ChainName) (id : Text) (s : Service W S)
      → (get_webhook_details_with_sdk ext cache config chain id s).1.address_to_webhook
        ≡ s.address_to_webhook
  unfolding get_webhook_details_with_sdk
  details-keeps chain id s = ground arith

  -- The clean-up of a chain leaves the webhooks of an address alone that is the default one or has an
  -- unexpired snapshot, or whose query throws.
  pub reconcile_chain_addresses-keeps :
      (chain : ChainName) (id : Text) (now : ℕ) (r : Reconciliation W S D) (a v : Text)
      → is_stale db chain now r.snapshots a ≡ false
      → tracks
          (reconcile_chain_addresses ext cache config db chain id now r).service.address_to_webhook
          a
          v
        ≡ tracks r.service.address_to_webhook a v
  unfolding reconcile_chain_addresses
  reconcile_chain_addresses-keeps chain id now r a v h =
      let (addresses, service) = get_webhook_details_with_sdk ext cache config chain id r.service in
      let same = details-keeps chain id r.service in
      elim (Reply-cases (stale_addresses db chain now r.snapshots addresses)) [
        | inl failed ↦ rw (failed, reconcile_chain_addresses, same)
        | inr (stale, e) ↦
            let spared : member a stale ≡ false =
              rw (stale_addresses-eq-keep_if db chain now r.snapshots addresses stale e)
                (member-keep_if a (is_stale db chain now r.snapshots) addresses h) in
            rw (e, reconcile_chain_addresses)
              (remove_stale-keeps chain stale now (record r { service = service }) a v spared
                ∙ ap (λ m. tracks m a v) same)
      ]

  remove_stale_cases :
      (chain : ChainName) (stale : List Text) (now : ℕ) (r : Reconciliation W S D)
      → let r' = remove_stale ext cache config db chain stale now r in
        (r'.snapshots ≡ r.snapshots)
        ⊎ (((update_webhook_addresses ext cache config chain [] stale now r.service).0 ≡ true)
            × (db.unset_monitored chain stale r.snapshots ≡ returned r'.snapshots))
  unfolding remove_stale
  remove_stale_cases chain [] now r = inl refl
  remove_stale_cases chain (x ∷ xs) now r = ground arith

  -- The clean-up of a chain leaves the snapshots as they are, or Alchemy has accepted the removal of
  -- exactly the addresses of the webhook that are neither the default one nor have an unexpired
  -- snapshot, and the mark was taken off those addresses.
  pub reconcile_chain_addresses_cases :
      (chain : ChainName) (id : Text) (now : ℕ) (r : Reconciliation W S D)
      → let r' = reconcile_chain_addresses ext cache config db chain id now r in
        let (addresses, service) =
          get_webhook_details_with_sdk ext cache config chain id r.service in
        let stale = keep_if (is_stale db chain now r.snapshots) addresses in
        (r'.snapshots ≡ r.snapshots)
        ⊎ (((update_webhook_addresses ext cache config chain [] stale now service).0 ≡ true)
            × (db.unset_monitored chain stale r.snapshots ≡ returned r'.snapshots))
  unfolding reconcile_chain_addresses
  reconcile_chain_addresses_cases chain id now r =
      let (addresses, service) = get_webhook_details_with_sdk ext cache config chain id r.service in
      elim (Reply-cases (stale_addresses db chain now r.snapshots addresses)) [
        | inl failed ↦ rw (failed, reconcile_chain_addresses) (inl refl)
        | inr (stale, e) ↦
            rw
              (
                e,
                reconcile_chain_addresses,
                ← stale_addresses-eq-keep_if db chain now r.snapshots addresses stale e,
              )
              (remove_stale_cases chain stale now (record r { service = service }))
      ]
