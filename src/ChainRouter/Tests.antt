-- ===== src/ChainRouter/Tests.antt =====
-- The theorem on the chain router at an example: a service on the main net is dispatched to a test net.
use onekey_balance_kit.Base.{
  ℕ, ◌≡◌, refl, true, Text, some, [], ◌∷◌, codes, get, text_beq, if◌then◌else◌,
}
use onekey_balance_kit.ChainRouter.Dispatched.{Arrives, dispatch-Arrives}
use onekey_balance_kit.ChainRouter.{ChainRouter, done, dispatch}
use onekey_balance_kit.Chains.{ethereum_sepolia, value}
use onekey_balance_kit.EvmChain.Tests.{service}
use onekey_balance_kit.EvmChain.{EvmChainService, set_chain_id}

abbrev router : ChainRouter (EvmChainService ℕ ℕ)
router = record {
  classes = (value ethereum_sepolia, codes "EthereumService") ∷ [];
  services = (codes "EthereumService", service) ∷ [];
}

dispatch-Arrives_example :
    let r =
      dispatch
        (λ s. true)
        set_chain_id
        11155111
        (λ s. (s.current_chain_id, set_chain_id 1 s))
        router in
    (arrived : EvmChainService ℕ ℕ) × Arrives ethereum_sepolia service arrived
    × (r.0 ≡ done arrived.current_chain_id)
    × ((other : Text)
        → get other r.1.services ≡ (
            if text_beq (codes "EthereumService") other
            then some (set_chain_id 1 arrived)
            else get other router.services))
unfolding get
dispatch-Arrives_example =
    dispatch-Arrives (λ s. true) ethereum_sepolia (codes "EthereumService") service
      (λ s. (s.current_chain_id, set_chain_id 1 s)) router refl refl refl
