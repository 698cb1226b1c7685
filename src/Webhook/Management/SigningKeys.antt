-- ===== src/Webhook/Management/SigningKeys.antt =====
-- The signing keys of webhook/webhook-management.service.ts: `getSigningKeyByUrl` and
-- `clearSigningKeyCache`.
use onekey_balance_kit.Base.{
  ℕ, ◌+◌, Bool, ◌&&◌, ◌||◌, Option, none, some, [], ◌∷◌, ◌++◌, Text, truthy, text_beq, ltb,
  if◌then◌else◌, or_else, find_if, starts_with, includes, codes, Map, get, set, delete,
}
use onekey_balance_kit.Cache.{Manager}
use onekey_balance_kit.Chains.{ChainName, value}
use onekey_balance_kit.Webhook.Account.{
  External, Config, Service, AlchemyWebhook, SigningKeyCache, cache_ttl, get_network_id,
}
use onekey_balance_kit.Webhook.Management.{get_existing_webhooks}

unfoldable pub signing_cache_key : Text → ChainName → Text
signing_cache_key url chain = url ++ (b':' ∷ value chain)

-- The key of an entry that has not expired.
unfoldable pub cached_key : Text → ℕ → Map SigningKeyCache → Option Text
cached_key cache_key now m = elim (get cache_key m) [
  | none ↦ none
  | some entry ↦ if ltb now entry.expires_at then some entry.key else none
]

unfoldable pub signs : Text → ChainName → AlchemyWebhook → Bool
signs url chain w =
    text_beq w.webhook_url url && (text_beq w.network (get_network_id chain) && w.is_active)

module _ {W S : Type 0} (ext : External W) (cache : Manager S Text) (config : Config) where
  -- The part of `getSigningKeyByUrl` that asks the API; `later` is the time at which it stores the key.
  unfoldable pub fetch_signing_key : Text → ChainName → ℕ → Service W S → Option Text × Service W S
  fetch_signing_key url chain later s =
      let (listed, w) = get_existing_webhooks ext cache config s.world in
      let s' = record s { world = w } in
      elim (find_if (signs url chain) (or_else listed [])) [
        | none ↦ (none, s')
        | some found ↦
            if truthy found.signing_key
            then (
              some found.signing_key,
              record s' {
                signing_key_cache =
                    set (signing_cache_key url chain)
                      (record { key = found.signing_key; expires_at = later + cache_ttl })
                      s.signing_key_cache;
              },
            )
            else (some found.signing_key, s')
      ]

  unfoldable pub get_signing_key_by_url :
      Text → ChainName → Bool → ℕ → ℕ → Service W S → Option Text × Service W S
  get_signing_key_by_url url chain force now later s =
      let fetched = fetch_signing_key url chain later s in
      if force
      then fetched
      else elim (cached_key (signing_cache_key url chain) now s.signing_key_cache) [
        | some key ↦ (some key, s)
        | none ↦ fetched
      ]

-- The loop over the keys: each that passes the test is deleted.
unfoldable pub delete_keys : (Text → Bool) → Map SigningKeyCache → Map SigningKeyCache
delete_keys test [] = []
delete_keys test ((k, v) ∷ m) = if test k then delete_keys test m else (k, v) ∷ delete_keys test m

unfoldable pub clear_signing_key_cache :
    {W S : Type 0} → Option Text → Option ChainName → Service W S → Service W S
unfolding delete_keys
clear_signing_key_cache none none s = record s { signing_key_cache = []; address_to_webhook = [] }
clear_signing_key_cache none (some c) s = record s {
  signing_key_cache = delete_keys (λ k. includes k (b':' ∷ value c)) s.signing_key_cache;
}
clear_signing_key_cache (some url) chain s =
    if truthy url
    then (elim chain [
      | some c ↦ record s {
        signing_key_cache = delete (signing_cache_key url c) s.signing_key_cache;
      }
      | none ↦ record s {
        signing_key_cache =
            delete_keys (λ k. text_beq k url || starts_with k (url ++ codes ":"))
              s.signing_key_cache;
      }
    ])
    else (elim chain [
      | some c ↦ record s {
        signing_key_cache = delete_keys (λ k. includes k (b':' ∷ value c)) s.signing_key_cache;
      }
      | none ↦ record s { signing_key_cache = []; address_to_webhook = [] }
    ])
