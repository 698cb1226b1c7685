-- ===== src/ChainServices/Available.antt =====
-- Which chain services chains/services/core/chain-service.factory.ts gives.
use onekey_balance_kit.Base.{
  ◌≡◌, Option, some, Text, is_some, get, get-set_self, arith, Option-cases, inl, inr,
}
use onekey_balance_kit.Cache.{Reply, returned}
use onekey_balance_kit.ChainServices.{
  base, ChainServiceFactory, normalize_chain_input, is_chain_available,
  create_chain_service_instance, get_chain_service,
}

-- The injector has an instance of every class.
pub record Injects {C V : Type 0} (make : C → Reply (Option V)) : Type 0 where
  pub instance_of : C → V
  pub makes : (c : C) → make c ≡ returned (some (instance_of c))

module _ {C V : Type 0} (make : C → Reply (Option V)) where
  -- Where the injector has an instance of every class, a chain is available by the test exactly if its
  -- service is found; a service that is found is found again, without a change.
  pub get_chain_service_iff :
      (input : Text) (s : ChainServiceFactory C V)
      → Injects make
      → let r = get_chain_service make input s in
        (is_chain_available input s ≡ is_some r.0) × (get_chain_service make input r.1 ≡ r)
  unfolding get_chain_service is_chain_available create_chain_service_instance
  get_chain_service_iff input s inject =
      let name = normalize_chain_input input in
      elim (Option-cases (get name s.chain_services)) [
        | inr (v, e) ↦ (ground (arith, e), ground (arith, e))
        | inl fresh ↦ elim (Option-cases (get name s.chain_service_types)) [
          | inl unknown ↦ (ground (arith, fresh, unknown), ground (arith, fresh, unknown))
          | inr (c, e) ↦
              let made = inject.makes c in
              let again = get-set_self name (base (inject.instance_of c)) s.chain_services in
              (ground (arith, fresh, e, made), ground (arith, fresh, e, made, again))
        ]
      ]
