-- ===== src/Webhook/Management/Addresses.antt =====
-- `updateWebhookAddresses` of webhook/webhook-management.service.ts.
use onekey_balance_kit.Base.{
  non_empty, ℕ, ◌≡◌, refl, ◌∙◌, true, false, ◌&&◌, ◌||◌, not, Option, none, some, List, Text,
  truthy, text_beq, if◌then◌else◌, Map, arith, Bool-cases, Option-cases, inl, inr, All, ◌⊎◌, subst,
}
use onekey_balance_kit.Cache.{Manager}
use onekey_balance_kit.Chains.{ChainName}
use onekey_balance_kit.Webhook.Account.{
  External, Config, Service, member, map_added, map_removed, has_client,
}
use onekey_balance_kit.Webhook.Management.{
  push_update, update_webhook_addresses, get_webhook_id_for_chain, create_new_webhook,
}
use onekey_balance_kit.Webhook.Management.Tracking.{
  tracks, tracks-added, tracks-removed, HasWebhooks, map_added-HasWebhooks, map_removed-HasWebhooks,
}

module _ {W S : Type 0} (ext : External W) (cache : Manager S Text) (config : Config) where
  -- Looking for a webhook, or creating one, leaves the map and the clients alone.
  create-keeps :
      (chain : ChainName) (now : ℕ) (s : Service W S)
      → let s' = (create_new_webhook ext cache config chain now s).1 in
        (s'.address_to_webhook ≡ s.address_to_webhook) × (s'.sdk_clients ≡ s.sdk_clients)
  unfolding create_new_webhook
  create-keeps chain now s = ground arith

  lookup-keeps :
      (chain : ChainName) (now : ℕ) (s : Service W S)
      → let s' = (get_webhook_id_for_chain ext cache config chain now s).1 in
        (s'.address_to_webhook ≡ s.address_to_webhook) × (s'.sdk_clients ≡ s.sdk_clients)
  unfolding get_webhook_id_for_chain
  lookup-keeps chain now s = grind (arith, create-keeps)

  -- What an update does to the map, given the webhook that was found for the chain: of every address
  -- and webhook, whether the address has the webhook afterwards.
  abbrev pub IsUpdated : List Text → List Text → Map (List Text) → Map (List Text) → Text → Type 0
  IsUpdated add remove before after id =
      (address v : Text)
      → tracks after address v ≡ (
          if text_beq id v
          then not (member address remove) && (member address add || tracks before address v)
          else tracks before address v)

  map-IsUpdated :
      (add remove : List Text) (m : Map (List Text)) (id : Text)
      → IsUpdated add remove m (map_removed id remove (map_added id add m)) id
  map-IsUpdated add remove m id address v = ground (
    arith,
    tracks-removed id remove (map_added id add m) address v,
    tracks-added id add m address v,
  )

  push_update_cases :
      (chain : ChainName) (add remove : List Text) (id : Text) (s : Service W S)
      → let r = push_update ext cache config chain add remove id s in
        ((r.0 ≡ true) × IsUpdated add remove s.address_to_webhook r.1.address_to_webhook id)
        ⊎ ((r.0 ≡ false) × (r.1.address_to_webhook ≡ s.address_to_webhook))
  unfolding push_update
  push_update_cases chain add remove id s = elim (Bool-cases (has_client chain s.sdk_clients)) [
    | inr missing ↦ rw missing (inr (refl, refl))
    | inl present ↦ elim (Bool-cases (ext.update_webhook id add remove s.world).0) [
      | inl done ↦ rw (present, done) (inl (refl, map-IsUpdated add remove s.address_to_webhook id))
      | inr failed ↦ rw (present, failed) (inr (refl, refl))
    ]
  ]

  non_empty-eq-some : (o : Option Text) (id : Text) → non_empty o ≡ some id → o ≡ some id
  non_empty-eq-some none id e = cc
  non_empty-eq-some (some x) id e = ground arith

  -- An update of a chain's addresses that answers true has found a webhook for the chain, and in the
  -- map it adds that webhook to the added addresses, takes it from the removed ones, and leaves the
  -- other webhooks of every address. One that answers false leaves the map as it was.
  pub update_webhook_addresses_cases :
      (chain : ChainName) (add remove : List Text) (now : ℕ) (s : Service W S)
      → let r = update_webhook_addresses ext cache config chain add remove now s in
        ((r.0 ≡ true)
          × ((id : Text) × ((get_webhook_id_for_chain ext cache config chain now s).0 ≡ some id)
              × IsUpdated add remove s.address_to_webhook r.1.address_to_webhook id))
        ⊎ ((r.0 ≡ false) × (r.1.address_to_webhook ≡ s.address_to_webhook))
  unfolding update_webhook_addresses
  update_webhook_addresses_cases chain add remove now s =
      elim (Bool-cases (truthy config.alchemy_token)) [
        | inr unset ↦ rw unset (inr (refl, refl))
        | inl set_up ↦
            let (found, s') = get_webhook_id_for_chain ext cache config chain now s in
            let same = (lookup-keeps chain now s).0 in
            elim (Option-cases (non_empty found)) [
              | inl nothing ↦ rw (set_up, nothing, update_webhook_addresses) (inr (refl, same))
              | inr (id, e) ↦
                  let after =
                    (push_update ext cache config chain add remove id s').1.address_to_webhook in
                  rw (set_up, e, update_webhook_addresses)
                    (elim (push_update_cases chain add remove id s') [
                      | inl (done, u) ↦ inl (
                        done,
                        (
                          id,
                          non_empty-eq-some found id e,
                          subst (λ m. IsUpdated add remove m after id) same u,
                        ),
                      )
                      | inr (failed, kept) ↦ inr (failed, kept ∙ same)
                    ])
            ]
      ]

  -- An update that finds no address without a webhook in the map leaves none.
  pub update_webhook_addresses-HasWebhooks :
      (chain : ChainName) (add remove : List Text) (now : ℕ) (s : Service W S)
      → All HasWebhooks s.address_to_webhook
      → All HasWebhooks
          (update_webhook_addresses ext cache config chain add remove now s).1.address_to_webhook
  unfolding update_webhook_addresses push_update
  update_webhook_addresses-HasWebhooks chain add remove now s h =
      grind (arith, lookup-keeps, map_added-HasWebhooks, map_removed-HasWebhooks)
