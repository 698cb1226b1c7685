-- ===== src/Webhook/Management.antt =====
-- webhook/webhook-management.service.ts: the methods. The cache service that keeps the creation locks
-- is that of the cache module, over an arbitrary manager.
pub mod Tracking
pub mod Addresses
pub mod Lock
pub mod SigningKeys
pub mod SigningLaws
use onekey_balance_kit.Base.{
  non_empty, ℕ, ◌+◌, ◌*◌, Bool, true, false, ◌&&◌, ◌||◌, not, Option, none, some, List, [], ◌∷◌,
  ◌++◌, Text, codes, truthy, text_beq, ltb, nat_beq, if◌then◌else◌, or_else, is_some, any, find_if,
  keep_if, starts_with, includes, show, Map, get, set, delete, has,
}
use onekey_balance_kit.Cache.{
  Reply, returned, threw, Manager, Result, ok, err, cache_get, cache_set, cache_delete,
}
use onekey_balance_kit.Chains.{ChainName, value, all_chains}
use onekey_balance_kit.Chains.Alchemy.{get_network_id_for_chain}
use onekey_balance_kit.Webhook.Account.{
  AlchemyWebhook, SigningKeyCache, Config, Response, External, Service, cache_ttl, init_clients,
  create_service, has_client, get_network_id, serves, matching_id, lock_key, member, add_id,
  default_monitored_address, drop_id, map_added, map_left, map_removed,
}

module _ {W S : Type 0} (ext : External W) (cache : Manager S Text) (config : Config) where
  unfoldable pub get_existing_webhooks : W → Option (List AlchemyWebhook) × W
  get_existing_webhooks w =
      if truthy config.alchemy_token
      then (let (reply, w') = ext.list_webhooks w in
          elim reply [
            | threw ↦ (none, w')
            | returned r ↦ (if nat_beq r.status 200 then some (or_else r.body []) else some [], w')
          ])
      else (none, w)

  unfoldable pub get_existing_webhook_id_for_chain : ChainName → W → Option Text × W
  get_existing_webhook_id_for_chain chain w =
      let (listed, w') = get_existing_webhooks w in
      (elim listed [ none ↦ none | some ws ↦ matching_id config chain ws ], w')

  -- What `createNewWebhook` does while it holds the lock.
  unfoldable pub create_locked : ChainName → List ChainName → W → Option Text × W
  create_locked chain clients w =
      if truthy config.alchemy_api_key && (truthy config.webhook_url && has_client chain clients)
      then (let (existing, w') = get_existing_webhook_id_for_chain chain w in
          elim (non_empty existing) [
            | some id ↦ (some id, w')
            | none ↦
                let (reply, w'') =
                  ext.create_webhook chain config.webhook_url (default_monitored_address ∷ []) w' in
                (elim reply [ threw ↦ none | returned made ↦ non_empty made ], w'')
          ])
      else (none, w)

  -- The catch of `createNewWebhook`: an error in the deletion is ignored.
  unfoldable pub try_release : ChainName → S → S
  try_release chain s = elim (cache_delete cache (lock_key chain) s) [ ok s' ↦ s' | err e ↦ s ]

  -- The finally clause: where the deletion throws, the result is lost.
  unfoldable pub release : ChainName → Option Text → S → Option Text × S
  unfolding try_release
  release chain made s = elim (cache_delete cache (lock_key chain) s) [
    | ok s' ↦ (made, s')
    | err e ↦ (none, try_release chain s)
  ]

  unfoldable pub create_new_webhook : ChainName → ℕ → Service W S → Option Text × Service W S
  unfolding release
  create_new_webhook chain now s = elim (cache_get cache (lock_key chain) s.locks) [
    | err e ↦ (none, record s { locks = try_release chain s.locks })
    | ok found ↦ elim (non_empty found) [
      | some holder ↦ (none, s)
      | none ↦ elim (cache_set cache 0 (lock_key chain) (show now) (some 30) s.locks) [
        | err e ↦ (none, record s { locks = try_release chain s.locks })
        | ok held ↦
            let (made, w) = create_locked chain s.sdk_clients s.world in
            let (result, locks) = release chain made held in
            (result, record s { world = w; locks = locks })
      ]
    ]
  ]

  unfoldable pub get_webhook_id_for_chain : ChainName → ℕ → Service W S → Option Text × Service W S
  get_webhook_id_for_chain chain now s =
      let (listed, w) = get_existing_webhooks s.world in
      let s' = record s { world = w } in
      elim listed [
        | none ↦ create_new_webhook chain now s'
        | some ws ↦ elim (matching_id config chain ws) [
          | some id ↦ (some id, s')
          | none ↦ create_new_webhook chain now s'
        ]
      ]

  -- `updateWebhookAddresses` once the webhook is known.
  unfoldable pub push_update :
      ChainName → List Text → List Text → Text → Service W S → Bool × Service W S
  push_update chain add remove id s =
      if has_client chain s.sdk_clients
      then (let (done, w) = ext.update_webhook id add remove s.world in
          if done
          then (
            true,
            record s {
              address_to_webhook = map_removed id remove (map_added id add s.address_to_webhook);
              world = w;
            },
          )
          else (false, record s { world = w }))
      else (false, s)

  unfoldable pub update_webhook_addresses :
      ChainName → List Text → List Text → ℕ → Service W S → Bool × Service W S
  update_webhook_addresses chain add remove now s =
      if truthy config.alchemy_token
      then (let (found, s') = get_webhook_id_for_chain chain now s in
          elim (non_empty found) [
            | none ↦ (false, s')
            | some id ↦ push_update chain add remove id s'
          ])
      else (false, s)

  -- `getMonitoredAddresses`.
  unfoldable pub get_monitored_addresses : ChainName → ℕ → Service W S → List Text × Service W S
  get_monitored_addresses chain now s =
      if truthy config.alchemy_token
      then (let (found, s') = get_webhook_id_for_chain chain now s in
          elim (non_empty found) [
            | none ↦ ([], s')
            | some id ↦
                let (reply, w) = ext.webhook_details id s'.world in
                (
                  elim reply [
                    | threw ↦ []
                    | returned r ↦
                        if nat_beq r.status 200 then or_else (or_else r.body none) [] else []
                  ],
                  record s' { world = w },
                )
          ])
      else ([], s)

  -- `getWebhookDetailsWithSdk`.
  unfoldable pub get_webhook_details_with_sdk :
      ChainName → Text → Service W S → List Text × Service W S
  get_webhook_details_with_sdk chain id s =
      if truthy config.alchemy_token && has_client chain s.sdk_clients
      then (let (reply, w) = ext.get_addresses id s.world in
          (elim reply [ threw ↦ [] | returned found ↦ or_else found [] ], record s { world = w }))
      else ([], s)
