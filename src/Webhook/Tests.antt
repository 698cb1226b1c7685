-- ===== src/Webhook/Tests.antt =====
-- The theorems on webhook/webhook-management.service.ts at examples: an account that is a list of
-- webhooks, and a cache that is a map.
use onekey_balance_kit.Chains.Alchemy.{get_network_id_for_chain}
use onekey_balance_kit.Base.{
  ◌≡◌, ◌⊎◌, refl, true, false, some, List, [], ◌∷◌, ◌++◌, Text, codes, Map, get, set, delete,
  get-delete, text_beq_refl, arith,
}
use onekey_balance_kit.Cache.{cache_delete, cache_set, returned, threw, Manager, cache_get}
use onekey_balance_kit.Chains.{ethereum, polygon}
use onekey_balance_kit.Webhook.Account.{
  AlchemyWebhook, Config, External, Service, get_network_id, lock_key, serves, matching_id,
}
use onekey_balance_kit.Webhook.Management.{
  get_existing_webhook_id_for_chain, create_locked, create_new_webhook, get_webhook_id_for_chain,
  update_webhook_addresses, get_existing_webhooks,
}
use onekey_balance_kit.Webhook.Management.Addresses.{IsUpdated, update_webhook_addresses_cases}
use onekey_balance_kit.Webhook.Management.Lock.{
  is_held, Removes, IsReleased, IsFromApi, create_new_webhook-IsReleased,
  create_new_webhook-IsFromApi,
}
use onekey_balance_kit.Webhook.Management.SigningKeys.{get_signing_key_by_url}

abbrev pub Account : Type 0
Account = List AlchemyWebhook

abbrev pub hook : Text → Text → AlchemyWebhook
hook id network = record {
  id = id;
  network = network;
  webhook_type = codes "ADDRESS_ACTIVITY";
  webhook_url = codes "u";
  is_active = true;
  signing_key = codes "key";
}

abbrev pub account : External Account
account = record {
  list_webhooks = λ w. (returned (record { status = 200; body = some w }), w);
  webhook_details = λ id w. (threw, w);
  update_webhook = λ id add remove w. (true, w);
  create_webhook = λ chain url addresses w.
      (returned (some (codes "made")), w ++ hook (codes "made") (get_network_id chain) ∷ []);
  get_addresses = λ id w. (threw, w);
}

abbrev pub store : Manager (Map Text) Text
store = record {
  fetch = λ k s. returned (get k s);
  put = λ k v ttl s. returned (set k v s);
  remove = λ k s. returned (delete k s);
}

store-Removes : Removes store
store-Removes = record {
  fetch-remove = λ k s s' e. ground (arith, get-delete k k s, text_beq_refl k, e);
}

abbrev pub config : Config
config = record { alchemy_token = codes "t"; alchemy_api_key = codes "a"; webhook_url = codes "u" }

abbrev pub service : Account → Map Text → Service Account (Map Text)
service w locks = record {
  sdk_clients = ethereum ∷ polygon ∷ [];
  signing_key_cache = [];
  address_to_webhook = (codes "0xa", codes "old" ∷ []) ∷ [];
  world = w;
  locks = locks;
}

abbrev pub idle : Service Account (Map Text)
idle = service (hook (codes "h") (codes "ETH_MAINNET") ∷ []) []

abbrev locked : Service Account (Map Text)
locked = service [] ((codes "webhook:create:polygon", codes "5") ∷ [])

update_webhook_addresses_cases_example :
    let r = update_webhook_addresses account store config ethereum (codes "0xb" ∷ []) [] 7 idle in
    ((r.0 ≡ true)
      × ((id : Text) × ((get_webhook_id_for_chain account store config ethereum 7 idle).0 ≡ some id)
          × IsUpdated account store config
              (codes "0xb" ∷ [])
              []
              idle.address_to_webhook
              r.1.address_to_webhook
              id))
    ⊎ ((r.0 ≡ false) × (r.1.address_to_webhook ≡ idle.address_to_webhook))
update_webhook_addresses_cases_example =
    update_webhook_addresses_cases account store config ethereum (codes "0xb" ∷ []) [] 7 idle

create_new_webhook-IsReleased_example :
    IsReleased account store config polygon
      (create_new_webhook account store config polygon 7 idle).1.locks
unfolding cache_get lock_key get
create_new_webhook-IsReleased_example =
    create_new_webhook-IsReleased account store config polygon 7 idle store-Removes refl

create_new_webhook-IsFromApi_example :
    (is_held store polygon idle.locks ≡ false)
    × IsFromApi account store config polygon idle.world
        (codes "made")
        (create_new_webhook account store config polygon 7 idle).1.world
unfolding create_new_webhook cache_get get cache_set cache_delete create_locked
    get_existing_webhook_id_for_chain get_existing_webhooks matching_id serves get_network_id
    get_network_id_for_chain
create_new_webhook-IsFromApi_example =
    create_new_webhook-IsFromApi account store config polygon 7 idle (codes "made") refl

abbrev fetched : Service Account (Map Text)
fetched = (get_signing_key_by_url account store config (codes "u") ethereum true 0 10 idle).1
