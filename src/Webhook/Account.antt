-- ===== src/Webhook/Account.antt =====
-- webhook/webhook-management.service.ts: its types, its constructor, the choice of a listed webhook and
-- the sets of webhooks of the addresses. The Alchemy SDK and the HTTP client are not under src: they
-- are `External`, whose calls return or throw and change a world `W`.
use onekey_balance_kit.Base.{
  ℕ, ◌*◌, Bool, ◌&&◌, not, Option, none, some, List, [], ◌∷◌, ◌++◌, Text, codes, truthy, text_beq,
  if◌then◌else◌, or_else, any, find_if, keep_if, Map, get, set, delete,
}
use onekey_balance_kit.Cache.{Reply}
use onekey_balance_kit.Chains.{
  ChainName, value, ethereum, solana, polygon, bsc, ethereum_goerli, ethereum_sepolia,
  solana_devnet, bsc_testnet, polygon_mumbai,
}
use onekey_balance_kit.Chains.Alchemy.{get_network_id_for_chain}

pub record AlchemyWebhook : Type 0 where
  pub id : Text
  pub network : Text
  pub webhook_type : Text
  pub webhook_url : Text
  pub is_active : Bool
  pub signing_key : Text

pub record SigningKeyCache : Type 0 where
  pub key : Text
  pub expires_at : ℕ

pub record Config : Type 0 where
  pub alchemy_token : Text
  pub alchemy_api_key : Text
  pub webhook_url : Text

-- An HTTP answer: its status, and its `data.data` if that is an array.
pub record Response (A : Type 0) : Type 0 where
  pub status : ℕ
  pub body : Option A

-- The calls on an account. A creation is by the client of a chain, for a URL and with addresses; its
-- option `network` is `Network[chain]` of the SDK, which the chain determines.
pub record External (W : Type 0) : Type 0 where
  pub list_webhooks : W → Reply (Response (List AlchemyWebhook)) × W
  pub webhook_details : Text → W → Reply (Response (Option (List Text))) × W
  pub update_webhook : Text → List Text → List Text → W → Bool × W
  pub create_webhook : ChainName → Text → List Text → W → Reply (Option Text) × W
  pub get_addresses : Text → W → Reply (Option (List Text)) × W

-- `sdk_clients` has the chains for which an SDK client was made.
pub record Service (W S : Type 0) : Type 0 where
  pub sdk_clients : List ChainName
  pub signing_key_cache : Map SigningKeyCache
  pub address_to_webhook : Map (List Text)
  pub world : W
  pub locks : S

abbrev pub default_monitored_address : Text
default_monitored_address = codes "0x710a850ff60aa2f8e9e27ef1e7edef17a2e682d2"

abbrev pub cache_ttl : ℕ
cache_ttl = 30 * 60 * 1000

abbrev supported_chains : List ChainName
supported_chains =
    ethereum ∷ ethereum_goerli ∷ ethereum_sepolia ∷ polygon ∷ polygon_mumbai ∷ bsc ∷ bsc_testnet
    ∷ solana ∷ solana_devnet ∷ []

-- `initAlchemySDKClients`: a chain whose network the SDK does not have is passed over, and a
-- constructor that throws ends the loop.
unfoldable pub init_clients :
    (ChainName → Bool) → (ChainName → Bool) → List ChainName → List ChainName → List ChainName
init_clients known builds [] made = made
init_clients known builds (c ∷ cs) made =
    let skipped = init_clients known builds cs made in
    let built = init_clients known builds cs (made ++ c ∷ []) in
    if known c then (if builds c then built else made) else skipped

-- The constructor.
unfoldable pub create_service :
    {W S : Type 0} → (ChainName → Bool) → (ChainName → Bool) → Config → W → S → Service W S
unfolding init_clients
create_service known builds config w locks = record {
  sdk_clients =
      if truthy config.alchemy_token && truthy config.alchemy_api_key
      then init_clients known builds supported_chains []
      else [];
  signing_key_cache = [];
  address_to_webhook = [];
  world = w;
  locks = locks;
}

abbrev pub has_client : ChainName → List ChainName → Bool
has_client c cs = any (λ d. text_beq (value d) (value c)) cs

unfoldable pub get_network_id : ChainName → Text
get_network_id chain = or_else (get_network_id_for_chain chain) (codes "ETH_MAINNET")

-- The condition under which a listed webhook is the one of a chain.
unfoldable pub serves : Config → ChainName → AlchemyWebhook → Bool
serves config chain w =
    text_beq w.network (get_network_id chain)
    && (text_beq w.webhook_type (codes "ADDRESS_ACTIVITY")
        && (w.is_active && text_beq w.webhook_url config.webhook_url))

unfoldable pub matching_id : Config → ChainName → List AlchemyWebhook → Option Text
matching_id config chain ws = elim (find_if (serves config chain) ws) [
  | none ↦ none
  | some w ↦ some w.id
]

unfoldable pub lock_key : ChainName → Text
lock_key chain = codes "webhook:create:" ++ value chain

-- Sets of webhook identifiers, without repetition.
abbrev pub member : Text → List Text → Bool
member x xs = any (λ y. text_beq y x) xs

abbrev pub add_id : Text → List Text → List Text
add_id x xs = if member x xs then xs else xs ++ x ∷ []

abbrev pub drop_id : Text → List Text → List Text
drop_id x xs = keep_if (λ y. not (text_beq y x)) xs

unfoldable pub map_added : Text → List Text → Map (List Text) → Map (List Text)
map_added id [] m = m
map_added id (a ∷ rest) m = map_added id rest (set a (add_id id (or_else (get a m) [])) m)

abbrev pub map_left : Text → Text → Map (List Text) → List Text → Map (List Text)
map_left id a m [] = delete a m
map_left id a m (x ∷ xs) = set a (x ∷ xs) m

unfoldable pub map_removed : Text → List Text → Map (List Text) → Map (List Text)
map_removed id [] m = m
map_removed id (a ∷ rest) m =
    map_removed id rest (elim (get a m) [ none ↦ m | some ids ↦ map_left id a m (drop_id id ids) ])
