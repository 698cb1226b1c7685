-- ===== src/Webhook/Reconciliation/Skipped.antt =====
-- Which webhooks the clean-up of webhook/webhook-address-reconciliation.service.ts passes over.
use onekey_balance_kit.Base.{ℕ, ◌≡◌, ◌≢◌, refl, true, none, List, ◌∷◌, Text, arith, text_beq_iff}
use onekey_balance_kit.Cache.{Manager}
use onekey_balance_kit.Chains.{
  ChainName, ethereum, solana, polygon, bsc, ethereum_goerli, ethereum_sepolia, solana_devnet,
  bsc_testnet, polygon_mumbai,
}
use onekey_balance_kit.Chains.Alchemy.{
  get_chain_name_from_network_id, get_network_id_for_chain, round_trip, round_trip_cases, family,
}
use onekey_balance_kit.Webhook.Account.{AlchemyWebhook, Config, External, serves, get_network_id}
use onekey_balance_kit.Webhook.Reconciliation.{Snapshots, Reconciliation, reconcile_all}

round_trip-get_network_id :
    (chain : ChainName) → get_chain_name_from_network_id (get_network_id chain) ≡ round_trip chain
unfolding round_trip get_network_id get_network_id_for_chain
round_trip-get_network_id ethereum = refl
round_trip-get_network_id solana = refl
round_trip-get_network_id polygon = refl
round_trip-get_network_id bsc = refl
round_trip-get_network_id ethereum_goerli = refl
round_trip-get_network_id ethereum_sepolia = refl
round_trip-get_network_id solana_devnet = refl
round_trip-get_network_id bsc_testnet = refl
round_trip-get_network_id polygon_mumbai = refl

unknown_network :
    (chain : ChainName) (w : AlchemyWebhook) (config : Config)
    → serves config chain w ≡ true
    → family chain ≢ ethereum
    → get_chain_name_from_network_id w.network ≡ none
unfolding serves
unknown_network chain w config h outside =
    let same : w.network ≡ get_network_id chain =
      (text_beq_iff w.network (get_network_id chain)).0 (ground arith) in
    rw (same, round_trip-get_network_id chain) ((round_trip_cases chain).1.1 outside)

module _ {W S D : Type 0} (ext : External W) (cache : Manager S Text) (config : Config)
    (db : Snapshots D) where
  -- The clean-up passes over every webhook that serves a chain outside the Ethereum family: the chain
  -- of its network is not found.
  pub reconcile_all-skips :
      (chain : ChainName) (time : Text → ℕ) (w : AlchemyWebhook) (ws : List AlchemyWebhook)
      (r : Reconciliation W S D)
      → serves config chain w ≡ true
      → family chain ≢ ethereum
      → reconcile_all ext cache config db time (w ∷ ws) r
        ≡ reconcile_all ext cache config db time ws r
  unfolding reconcile_all
  reconcile_all-skips chain time w ws r h outside =
      rw (unknown_network chain w config h outside, reconcile_all)
