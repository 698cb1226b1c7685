-- ===== src/ChainRouter/Dispatched.antt =====
-- What a dispatch does, and which chain its action sees.
use onekey_balance_kit.Base.{
  ℕ, ◌≡◌, ◌⊎◌, refl, Bool, true, some, Text, if◌then◌else◌, get, get-set, text_beq, Option-cases,
  inl, inr,
}
use onekey_balance_kit.ChainRouter.{
  ChainRouter, RouterFailure, unknown_chain_id, no_service_class, no_instance, done, refused,
  prepared, run_on, dispatch,
}
use onekey_balance_kit.Chains.{
  ChainName, ethereum, solana, polygon, bsc, ethereum_goerli, ethereum_sepolia, solana_devnet,
  bsc_testnet, polygon_mumbai, value, chain_info_map, get_chain_name_by_chain_id,
}
use onekey_balance_kit.EvmChain.Requests.{network_of, on_chain_name, on_network}
use onekey_balance_kit.EvmChain.{EvmChainService, set_chain_id, network_type, current_chain_name}

-- The class and the service of a chain ID.
abbrev pub HasService : {S : Type 0} → ℕ → ChainRouter S → Text → S → Type 0
HasService chain_id s class service =
    (chain : ChainName) × (get_chain_name_by_chain_id chain_id ≡ some chain)
    × (get (value chain) s.classes ≡ some class)
    × (get class s.services ≡ some service)

module _ {S T : Type 0} (is_evm : S → Bool) (set_id : ℕ → S → S) where
  abbrev pub Refused : ℕ → (S → T × S) → ChainRouter S → Type 0
  Refused chain_id action s =
      (e : RouterFailure) × (dispatch is_evm set_id chain_id action s ≡ (refused e, s))

  abbrev pub Done : ℕ → (S → T × S) → ChainRouter S → Type 0
  Done chain_id action s =
      (class : Text) × ((service : S) × HasService chain_id s class service
        × (let r = action (prepared is_evm set_id chain_id service) in
            ((dispatch is_evm set_id chain_id action s).0 ≡ done r.0)
            × ((other : Text)
                → get other (dispatch is_evm set_id chain_id action s).1.services
                  ≡ (if text_beq class other then some r.1 else get other s.services))))

  -- A dispatch is refused and changes nothing, or it runs the action on the service of the chain that has
  -- the ID. An EVM service has been given the ID then, any other is left as it was. The service is
  -- kept as the action leaves it, and no other service is changed.
  pub dispatch_cases :
      (chain_id : ℕ) (action : S → T × S) (s : ChainRouter S)
      → Refused chain_id action s ⊎ Done chain_id action s
  unfolding dispatch run_on
  dispatch_cases chain_id action s = elim (Option-cases (get_chain_name_by_chain_id chain_id)) [
    | inl unknown ↦ inl (unknown_chain_id, rw (dispatch, unknown) refl)
    | inr (chain, known) ↦ elim (Option-cases (get (value chain) s.classes)) [
      | inl classless ↦ inl (no_service_class, rw (dispatch, known, classless) refl)
      | inr (class, of_chain) ↦ elim (Option-cases (get class s.services)) [
        | inl missing ↦ inl (no_instance, rw (dispatch, known, of_chain, run_on, missing) refl)
        | inr (service, there) ↦ inr (
          class,
          (
            service,
            (chain, known, of_chain, there),
            rw (dispatch, known, of_chain, run_on, there)
                (refl, λ other. get-set class other _ s.services),
          ),
        )
      ]
    ]
  ]

get_chain_name_by_chain_id-id :
    (chain : ChainName) → get_chain_name_by_chain_id (chain_info_map chain).id ≡ some chain
unfolding get_chain_name_by_chain_id
get_chain_name_by_chain_id-id ethereum = refl
get_chain_name_by_chain_id-id solana = refl
get_chain_name_by_chain_id-id polygon = refl
get_chain_name_by_chain_id-id bsc = refl
get_chain_name_by_chain_id-id ethereum_goerli = refl
get_chain_name_by_chain_id-id ethereum_sepolia = refl
get_chain_name_by_chain_id-id solana_devnet = refl
get_chain_name_by_chain_id-id bsc_testnet = refl
get_chain_name_by_chain_id-id polygon_mumbai = refl

-- What an action on an EVM service is run on: the service of the class, now on the chain and its network.
pub record Arrives {C I : Type 0} (chain : ChainName) (service arrived : EvmChainService C I)
    : Type 0 where
  pub on_id : arrived.current_chain_id ≡ (chain_info_map chain).id
  pub on_chain : current_chain_name arrived ≡ chain
  pub on_network : network_type arrived ≡ network_of chain
  pub same_evm_chain : arrived.evm_chain ≡ service.evm_chain
  pub same_factory : arrived.factory ≡ service.factory
  pub same_provider : arrived.default_provider ≡ service.default_provider

arrives :
    {C I : Type 0} (chain : ChainName) (service : EvmChainService C I)
    → Arrives chain service (set_chain_id (chain_info_map chain).id service)
unfolding set_chain_id
arrives chain service =
    let arrived = set_chain_id (chain_info_map chain).id service in
    record {
      on_id = refl;
      on_chain = on_chain_name chain arrived refl;
      on_network = on_network chain arrived refl;
      same_evm_chain = refl;
      same_factory = refl;
      same_provider = refl;
    }

-- A dispatch by the ID of a chain whose class has an EVM service runs the action on that service, on this
-- chain and its network, whatever chain the service was on before and however the action leaves it;
-- the router has the service as the action leaves it, and every other as before.
pub dispatch-Arrives :
    {C I T : Type 0} (is_evm : EvmChainService C I → Bool) (chain : ChainName) (class : Text)
    (service : EvmChainService C I) (action : EvmChainService C I → T × EvmChainService C I)
    (s : ChainRouter (EvmChainService C I))
    → get (value chain) s.classes ≡ some class
    → get class s.services ≡ some service
    → is_evm service ≡ true
    → let r = dispatch is_evm set_chain_id (chain_info_map chain).id action s in
      (arrived : EvmChainService C I) × Arrives chain service arrived
      × (r.0 ≡ done (action arrived).0)
      × ((other : Text)
          → get other r.1.services
            ≡ (if text_beq class other then some (action arrived).1 else get other s.services))
unfolding dispatch run_on
dispatch-Arrives is_evm chain class service action s of_chain there evm =
    let id = (chain_info_map chain).id in
    let known = get_chain_name_by_chain_id-id chain in
    (
      set_chain_id id service,
      arrives chain service,
      rw (dispatch, known, of_chain, run_on, there, evm) refl,
      rw (dispatch, known, of_chain, run_on, there, evm)
          (λ other. get-set class other _ s.services),
    )
