-- ===== src/ChainsController/Tests.antt =====
-- The theorems on the controller of chains at examples: a service is its chain ID.
use onekey_balance_kit.Base.{
  set, get, ℕ, ◌≡◌, refl, true, none, some, [], ◌∷◌, codes, to_lower, nat_beq, not,
}
use onekey_balance_kit.Cache.{returned}
use onekey_balance_kit.ChainServices.{
  normalize_chain_input, is_chain_available, ChainServiceFactory, base,
}
use onekey_balance_kit.Chains.{coin_symbol_to_chain_map, ethereum, value}
use onekey_balance_kit.ChainsController.Listed.{IsTestnetOf, requested_chain_id-IsTestnetOf}
use onekey_balance_kit.ChainsController.Sticky.{validate_address-again}
use onekey_balance_kit.ChainsController.{
  requested_chain_id, requested_service, ServiceApi, AddressReport, validate_address,
}

abbrev api : ServiceApi ℕ
api = record {
  set_chain_id = λ n v. n;
  get_chain_id = λ v. some v;
  is_testnet = λ v. some (not (nat_beq v 1));
  get_chain_name = λ v. codes "Ethereum";
  is_valid_address = λ v address. true;
  get_address_transaction_hashes = λ v address. returned [];
}

abbrev factory : ChainServiceFactory ℕ ℕ
factory = record {
  chain_services = (value ethereum, base 1) ∷ [];
  chain_service_types = [];
  provider_specific_services = [];
}

abbrev goerli_report : AddressReport
goerli_report = record {
  chain = codes "Ethereum";
  chain_id = some 5;
  address = codes "0xa";
  is_valid = true;
  is_testnet = some true;
}

validate_address-again_example :
    let r =
      validate_address
        (λ c. returned (some c))
        api
        (codes "ethereum")
        (codes "0xa")
        (some (codes "testnet"))
        none
        factory in
    validate_address (λ c. returned (some c)) api (codes "ethereum") (codes "0xa") none none r.1
    ≡ (returned goerli_report, r.1)
unfolding validate_address requested_service is_chain_available get normalize_chain_input
    coin_symbol_to_chain_map set to_lower requested_chain_id
validate_address-again_example =
    validate_address-again (λ c. returned (some c)) api (codes "ethereum") (codes "0xa")
      (some (codes "testnet")) none factory goerli_report refl

requested_chain_id-IsTestnetOf_example : IsTestnetOf (codes "ethereum") 5
unfolding requested_chain_id
requested_chain_id-IsTestnetOf_example = requested_chain_id-IsTestnetOf (codes "ethereum") 5 refl
