-- ===== src/Webhook/Reconciliation/Tests.antt =====
-- The theorems on webhook/webhook-address-reconciliation.service.ts at examples: a database that is
-- the list of the addresses with an unexpired snapshot.
use onekey_balance_kit.Base.{
  to_lower, ◌≡◌, refl, Bool, true, ◌&&◌, not, some, List, [], ◌∷◌, ◌++◌, Text, codes, Map, keep_if,
  text_beq, get, set,
}
use onekey_balance_kit.Cache.{returned, threw}
use onekey_balance_kit.Chains.{ethereum, network_id_to_chain_map}
use onekey_balance_kit.Webhook.Account.{
  default_monitored_address, member, External, matching_id, serves, get_network_id,
}
use onekey_balance_kit.Webhook.Management.{
  get_existing_webhooks, get_webhook_details_with_sdk, update_webhook_addresses,
  get_webhook_id_for_chain, push_update,
}
use onekey_balance_kit.Chains.Alchemy.{get_chain_name_from_network_id, get_network_id_for_chain}
use onekey_balance_kit.Webhook.Tests.{hook, store, config}
use onekey_balance_kit.Webhook.Reconciliation.{
  Snapshots, Reconciliation, reconcile_webhook_addresses, stale_addresses,
}

abbrev database : Snapshots (List Text)
database = record {
  find_unexpired = λ chain a now d. returned (member a d);
  unset_monitored = λ chain addresses d. returned d;
}

-- An account with one webhook, which has the addresses of the list.
abbrev listing : External (List Text)
listing = record {
  list_webhooks = λ w. (
    returned (record { status = 200; body = some (hook (codes "h") (codes "ETH_MAINNET") ∷ []) }),
    w,
  );
  webhook_details = λ id w. (threw, w);
  update_webhook = λ id add remove w. (true, keep_if (λ a. not (member a remove)) (add ++ w));
  create_webhook = λ chain url addresses w. (threw, w);
  get_addresses = λ id w. (returned (some w), w);
}

abbrev has_address : List Text → Text → Text → Bool
has_address w v a = text_beq v (codes "h") && member a w

abbrev before : Reconciliation (List Text) (Map Text) (List Text)
before = record {
  service = record {
    sdk_clients = ethereum ∷ [];
    signing_key_cache = [];
    address_to_webhook = [];
    world = codes "0xb" ∷ default_monitored_address ∷ [];
    locks = [];
  };
  snapshots = codes "0xa" ∷ [];
  existing_webhooks = [];
}

-- The address without a snapshot goes.
stale_removed :
    (reconcile_webhook_addresses listing store config database (λ id. 5) before).service.world
    ≡ default_monitored_address ∷ []
unfolding reconcile_webhook_addresses get_existing_webhooks get_chain_name_from_network_id get
    network_id_to_chain_map set stale_addresses get_webhook_details_with_sdk to_lower
    update_webhook_addresses get_webhook_id_for_chain matching_id serves get_network_id
    get_network_id_for_chain push_update
stale_removed = refl
