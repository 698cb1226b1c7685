-- ===== src/ChainsController.antt =====
-- chains/controllers/chains.controller.ts: the list of chains, and the requests on an address. The methods
-- of a chain service are an argument; a service that lacks one answers `none`, and has no chain ID
-- to set. A request runs to its end before the next. A chain ID below zero, which `parseInt` may give,
-- is not modelled.
pub mod Listed
pub mod Sticky
pub mod Tests
use onekey_balance_kit.Base.{
  ℕ, ◌≡◌, Bool, true, false, ◌&&◌, ◌||◌, not, Option, none, some, List, [], ◌∷◌, Text, codes,
  truthy, to_lower, text_beq, nat_beq, parse_int, find_if, any, keep_if, map, if◌then◌else◌, set,
}
use onekey_balance_kit.Cache.{Reply, returned, threw}
use onekey_balance_kit.ChainServices.{
  ChainService, base, proxy, ChainServiceFactory, normalize_chain_input, is_chain_available,
  get_chain_service, get_available_chains,
}
use onekey_balance_kit.Chains.{ChainName, BaseChainInfo, value, all_chains, chain_info_map}

pub record ListedChain : Type 0 where
  pub id : ℕ
  pub name : Text
  pub chain_type : ChainName
  pub is_testnet : Bool
  pub mainnet_ref : Option ChainName
  pub supported_symbols : List Text

abbrev pub listed : BaseChainInfo → ListedChain
listed info = record {
  id = info.id;
  name = info.display;
  chain_type = info.name;
  is_testnet = not info.is_mainnet;
  mainnet_ref = info.mainnet_ref;
  supported_symbols = info.coin_symbols;
}

abbrev pub is_true : Option Text → Bool
is_true none = false
is_true (some s) = text_beq s (codes "true")

abbrev pub is_listed : Bool → List Text → BaseChainInfo → Bool
is_listed show_testnets names info =
    (show_testnets || info.is_mainnet)
    && any (λ name. text_beq name (to_lower (value info.name))) names

-- `getAvailableChains` of the controller.
unfoldable pub list_chains :
    {C V : Type 0} → Option Text → ChainServiceFactory C V → List ListedChain
list_chains include_testnet s = map listed (
    keep_if (is_listed (is_true include_testnet) (get_available_chains s))
      (map chain_info_map all_chains))

abbrev pub is_testnet_of : Text → BaseChainInfo → Bool
is_testnet_of input info =
    not info.is_mainnet
    && elim info.mainnet_ref [ none ↦ false | some main ↦ text_beq (value main) input ]

-- The first test net of the chain, if any.
abbrev pub testnet_id : Text → Option ℕ
testnet_id input = elim (find_if (is_testnet_of input) (map chain_info_map all_chains)) [
  | none ↦ none
  | some info ↦ some info.id
]

abbrev pub asks_testnet : Option Text → Bool
asks_testnet none = false
asks_testnet (some s) = text_beq s (codes "testnet")

abbrev pub by_network : Text → Option Text → Option ℕ
by_network input network = if asks_testnet network then testnet_id input else none

-- The chain ID that the parameters of a request call for.
unfoldable pub requested_chain_id : Text → Option Text → Option Text → Option ℕ
requested_chain_id input network none = by_network input network
requested_chain_id input network (some chain_id) =
    if truthy chain_id then parse_int chain_id else by_network input network

-- What the controller calls of a service.
pub record ServiceApi (V : Type 0) : Type 0 where
  pub set_chain_id : ℕ → V → V
  pub get_chain_id : V → Option ℕ
  pub is_testnet : V → Option Bool
  pub get_chain_name : V → Text
  pub is_valid_address : V → Text → Bool
  pub get_address_transaction_hashes : V → Text → Reply (List Text)

-- The service behind the proxies, which pass every other method on.
abbrev pub target : {V : Type 0} → ChainService V → V
target (base v) = v
target (proxy s provider) = target s

abbrev pub on_target : {V : Type 0} → (V → V) → ChainService V → ChainService V
on_target f (base v) = base (f v)
on_target f (proxy s provider) = proxy (on_target f s) provider

pub record AddressReport : Type 0 where
  pub chain : Text
  pub chain_id : Option ℕ
  pub address : Text
  pub is_valid : Bool
  pub is_testnet : Option Bool

pub record TransactionReport : Type 0 where
  pub chain : Text
  pub chain_id : Option ℕ
  pub address : Text
  pub is_testnet : Option Bool
  pub transactions : List Text

module _ {C V : Type 0} (make : C → Reply (Option V)) (api : ServiceApi V) where
  -- The service with the chain ID that was called for, which is kept in the shared service.
  abbrev pub with_requested :
      Text
      → Option ℕ
      → ChainService V
      → ChainServiceFactory C V
      → ChainService V × ChainServiceFactory C V
  with_requested input none service s = (service, s)
  with_requested input (some n) service s =
      let service' = on_target (api.set_chain_id n) service in
      if nat_beq n 0 then (service, s) else (
        service',
        record s { chain_services = set (normalize_chain_input input) service' s.chain_services },
      )

  -- The service of a request, or an exception.
  unfoldable pub requested_service :
      Text
      → Option Text
      → Option Text
      → ChainServiceFactory C V
      → Reply (ChainService V) × ChainServiceFactory C V
  unfolding get_chain_service
  requested_service input network chain_id s =
      if is_chain_available input s
      then (let found = get_chain_service make input s in
          elim found.0 [
            | none ↦ (threw, found.1)
            | some service ↦
                let r =
                  with_requested input (requested_chain_id input network chain_id) service
                    found.1 in
                (returned r.0, r.1)
          ])
      else (threw, s)

  abbrev pub address_report : Text → V → AddressReport
  address_report address v = record {
    chain = api.get_chain_name v;
    chain_id = api.get_chain_id v;
    address = address;
    is_valid = api.is_valid_address v address;
    is_testnet = api.is_testnet v;
  }

  unfoldable pub validate_address :
      Text
      → Text
      → Option Text
      → Option Text
      → ChainServiceFactory C V
      → Reply AddressReport × ChainServiceFactory C V
  validate_address input address network chain_id s =
      let r = requested_service input network chain_id s in
      elim r.0 [
        | threw ↦ (threw, r.1)
        | returned service ↦ (returned (address_report address (target service)), r.1)
      ]

  abbrev pub transaction_report : Text → V → Reply (List Text) → Reply TransactionReport
  transaction_report address v threw = threw
  transaction_report address v (returned hashes) = returned (record {
    chain = api.get_chain_name v;
    chain_id = api.get_chain_id v;
    address = address;
    is_testnet = api.is_testnet v;
    transactions = hashes;
  })

  unfoldable pub get_address_transactions :
      Text
      → Text
      → Option Text
      → Option Text
      → ChainServiceFactory C V
      → Reply TransactionReport × ChainServiceFactory C V
  get_address_transactions input address network chain_id s =
      let r = requested_service input network chain_id s in
      elim r.0 [
        | threw ↦ (threw, r.1)
        | returned service ↦ (
          transaction_report address (target service)
              (api.get_address_transaction_hashes (target service) address),
          r.1,
        )
      ]
