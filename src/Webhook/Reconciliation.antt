-- ===== src/Webhook/Reconciliation.antt =====
-- webhook/webhook-address-reconciliation.service.ts: the daily clean-up of monitored addresses. The
-- collection of portfolio snapshots is not under src: it is a `Snapshots`, whose calls return or throw.
pub mod Kept
pub mod Skipped
pub mod Spared
pub mod Tests
use onekey_balance_kit.Base.{
  ℕ, Bool, true, false, ◌&&◌, not, Option, none, some, List, [], ◌∷◌, Text, codes, truthy, text_beq,
  to_lower, if◌then◌else◌, or_else, keep_if,
}
use onekey_balance_kit.Cache.{Reply, returned, threw, Manager}
use onekey_balance_kit.Chains.{ChainName}
use onekey_balance_kit.Chains.Alchemy.{get_chain_name_from_network_id}
use onekey_balance_kit.Webhook.Account.{
  default_monitored_address, AlchemyWebhook, Config, External, Service,
}
use onekey_balance_kit.Webhook.Management.{
  get_existing_webhooks, get_webhook_details_with_sdk, update_webhook_addresses,
}

-- `findOne` for an unexpired snapshot of a chain and an address, and the `updateMany` that takes the
-- mark of a monitored address off.
pub record Snapshots (D : Type 0) : Type 0 where
  pub find_unexpired : ChainName → Text → ℕ → D → Reply Bool
  pub unset_monitored : ChainName → List Text → D → Reply D

pub record Reconciliation (W S D : Type 0) : Type 0 where
  pub service : Service W S
  pub snapshots : D
  pub existing_webhooks : List AlchemyWebhook

abbrev pub is_default : Text → Bool
is_default address = text_beq (to_lower address) (to_lower default_monitored_address)

-- An answer of a further address in front of the answers of the rest.
abbrev pub add_stale : Reply Bool → Text → Reply (List Text) → Reply (List Text)
add_stale threw address rest = threw
add_stale (returned true) address rest = rest
add_stale (returned false) address threw = threw
add_stale (returned false) address (returned xs) = returned (address ∷ xs)

-- The loop over the addresses of a webhook: those to remove.
unfoldable pub stale_addresses :
    {D : Type 0} → Snapshots D → ChainName → ℕ → D → List Text → Reply (List Text)
stale_addresses db chain now d [] = returned []
stale_addresses db chain now d (a ∷ rest) =
    let stale = stale_addresses db chain now d rest in
    if is_default a then stale else add_stale (db.find_unexpired chain a now d) a stale

module _ {W S D : Type 0} (ext : External W) (cache : Manager S Text) (config : Config)
    (db : Snapshots D) where
  -- The part of `reconcileChainAddresses` that removes addresses, if there are any.
  unfoldable pub remove_stale :
      ChainName → List Text → ℕ → Reconciliation W S D → Reconciliation W S D
  remove_stale chain [] now r = r
  remove_stale chain (a ∷ rest) now r =
      let (removed, service) =
        update_webhook_addresses ext cache config chain [] (a ∷ rest) now r.service in
      let r' = record r { service = service } in
      if removed
      then elim (db.unset_monitored chain (a ∷ rest) r.snapshots) [
        | threw ↦ r'
        | returned d ↦ record r' { snapshots = d }
      ]
      else r'

  -- `reconcileChainAddresses`; without an address there is nothing to remove.
  unfoldable pub reconcile_chain_addresses :
      ChainName → Text → ℕ → Reconciliation W S D → Reconciliation W S D
  unfolding remove_stale
  reconcile_chain_addresses chain id now r =
      let (addresses, service) = get_webhook_details_with_sdk ext cache config chain id r.service in
      let r' = record r { service = service } in
      elim (stale_addresses db chain now r.snapshots addresses) [
        | threw ↦ r'
        | returned stale ↦ remove_stale chain stale now r'
      ]

  abbrev pub is_own : AlchemyWebhook → Bool
  is_own w = w.is_active && text_beq w.webhook_url config.webhook_url

  -- The loop over the webhooks of the environment; `time` is the time at which each is handled.
  unfoldable pub reconcile_all :
      (Text → ℕ) → List AlchemyWebhook → Reconciliation W S D → Reconciliation W S D
  unfolding reconcile_chain_addresses
  reconcile_all time [] r = r
  reconcile_all time (w ∷ ws) r = elim (get_chain_name_from_network_id w.network) [
    | none ↦ reconcile_all time ws r
    | some chain ↦ reconcile_all time ws (reconcile_chain_addresses chain w.id (time w.id) r)
  ]

  unfoldable pub reconcile_webhook_addresses :
      (Text → ℕ) → Reconciliation W S D → Reconciliation W S D
  unfolding reconcile_all
  reconcile_webhook_addresses time r =
      if truthy config.webhook_url
      then (let (listed, w) = get_existing_webhooks ext cache config r.service.world in
          let found = or_else listed [] in
          reconcile_all time (keep_if is_own found)
            (record r { service = record r.service { world = w }; existing_webhooks = found }))
      else r
