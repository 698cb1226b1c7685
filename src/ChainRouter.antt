-- ===== src/ChainRouter.antt =====
-- chains/services/core/chain-router.service.ts: the dispatch of an action by chain ID. The classes are those
-- of `GLOBAL_CHAIN_SERVICE_MAP`, and the services are the instances that the injector of NestJS has,
-- both by name; it throws where it has none. `is_evm` is the test for an EVM chain service.
pub mod Dispatched
pub mod Tests
use onekey_balance_kit.Base.{ℕ, Bool, Option, none, some, Text, if◌then◌else◌, Map, get, set}
use onekey_balance_kit.Chains.{ChainName, value, get_chain_name_by_chain_id}

pub record ChainRouter (S : Type 0) : Type 0 where
  pub classes : Map Text
  pub services : Map S

pub data RouterFailure : Type 0 where
  unknown_chain_id no_service_class no_instance : RouterFailure

pub data Routed (T : Type 0) : Type 0 where
  done : T → Routed T
  refused : RouterFailure → Routed T

-- The service as the action gets it.
abbrev pub prepared : {S : Type 0} → (S → Bool) → (ℕ → S → S) → ℕ → S → S
prepared is_evm set_id chain_id service =
    if is_evm service then set_id chain_id service else service

module _ {S T : Type 0} (is_evm : S → Bool) (set_id : ℕ → S → S) where
  -- The action on the service of a class.
  unfoldable pub run_on : ℕ → (S → T × S) → Text → ChainRouter S → Routed T × ChainRouter S
  run_on chain_id action class s = elim (get class s.services) [
    | none ↦ (refused no_instance, s)
    | some service ↦
        let result = action (prepared is_evm set_id chain_id service) in
        (done result.0, record s { services = set class result.1 s.services })
  ]

  unfoldable pub dispatch : ℕ → (S → T × S) → ChainRouter S → Routed T × ChainRouter S
  unfolding run_on
  dispatch chain_id action s = elim (get_chain_name_by_chain_id chain_id) [
    | none ↦ (refused unknown_chain_id, s)
    | some chain ↦ elim (get (value chain) s.classes) [
      | none ↦ (refused no_service_class, s)
      | some class ↦ run_on chain_id action class s
    ]
  ]
