-- ===== src/QuickNode/Contracts.antt =====
-- The rest of providers/implementations/ethereum/ethereum-quicknode.provider.ts: the balance of a token, the
-- NFTs of an owner and the detailed gas price. `core` is the client of a URL and `is_address` the test of
-- an address; `gwei` is `(Number(n) / 1e9).toFixed(2)`, a computation on floating-point numbers.
use onekey_balance_kit.Base.{
  Bool, false, ◌&&◌, not, Option, none, some, List, [], ◌∷◌, ◌++◌, Text, codes, drop, map,
  non_empty, text_or, starts_with, if◌then◌else◌,
}
use onekey_balance_kit.Alchemy.{Strategy}
use onekey_balance_kit.Cache.{Reply, returned, threw}
use onekey_balance_kit.ProviderApi.{NetworkType}
use onekey_balance_kit.QuickNode.BigInt.{ℤ, big_int, show_int, pad_start}
use onekey_balance_kit.QuickNode.Provider.{EthereumQuickNodeProvider, strategy_of}
use onekey_balance_kit.QuickNode.{
  QnToken, QnNft, CallResult, call_text, no_result, other_result, Core, GasPrices, gas_prices,
  ensure_hex_address, get_client,
}

abbrev pub core_of : (Text → Core) → Option Text → Option Core
core_of core none = none
core_of core (some url) = some (core url)

-- The client of the network; the test net falls back to the main net.
abbrev pub client_for :
    {N : Type 0} → (Text → Core) → NetworkType → EthereumQuickNodeProvider N → Option Core
client_for core network s =
    get_client network (core_of core s.mainnet_client) (core_of core s.testnet_client)

-- The amount of the first token of an answer; `none` where the contract has to be called.
abbrev pub fetched_amount : Reply (Option (List QnToken)) → Option Text
fetched_amount threw = none
fetched_amount (returned none) = none
fetched_amount (returned (some [])) = none
fetched_amount (returned (some (t ∷ _))) = some (text_or t.amount (codes "0"))

abbrev pub token_amount : Core → Text → Text → Option Text
token_amount c address contract = elim c.fetch_token_balances [
  | none ↦ none
  | some fetch ↦ fetched_amount (fetch address (some contract))
]

-- The data of a call of `balanceOf`.
unfoldable pub balance_call : Text → Text
balance_call address = codes "0x70a08231" ++ pad_start 64 b'0' (drop 2 address)

abbrev pub called_balance : CallResult → Text
called_balance no_result = codes "0"
called_balance other_result = codes "0"
called_balance (call_text t) =
    if starts_with t (codes "0x")
    then elim (big_int t) [ none ↦ codes "0" | some z ↦ show_int z ]
    else codes "0"

abbrev pub balance_by_call : Core → Text → Text → Reply Text
balance_by_call c address contract =
    elim (c.call (ensure_hex_address contract) (balance_call address)) [
      | threw ↦ threw
      | returned r ↦ returned (called_balance r)
    ]

pub record Erc721Token : Type 0 where
  pub contract_address : Text
  pub token_id : Text
  pub name : Text
  pub symbol : Text
  pub token_uri : Text
  pub standard : Text
  pub metadata_image : Text
  pub metadata_attributes : List Text

-- What is given out for an NFT; without the API, a message for the contract.
pub data Erc721Entry : Type 0 where
  erc721_token : Erc721Token → Erc721Entry
  api_missing : (contract_address : Text) → Erc721Entry

abbrev pub some_list : {A : Type 0} → Option (List A) → List A
some_list none = []
some_list (some xs) = xs

abbrev pub erc721_entry : QnNft → Erc721Entry
erc721_entry n = erc721_token (record {
  contract_address = n.collection_address;
  token_id = n.token_id;
  name = text_or n.name [];
  symbol = text_or n.collection_name [];
  token_uri = text_or n.image_url [];
  standard = text_or n.collection_token_type (codes "ERC721");
  metadata_image = text_or n.image_url [];
  metadata_attributes = some_list n.traits;
})

abbrev pub without_api : Option Text → List Erc721Entry
without_api none = []
without_api (some contract) = api_missing contract ∷ []

abbrev pub entries_of : Option Text → Reply (Option (List QnNft)) → Reply (List Erc721Entry)
entries_of contract threw = threw
entries_of contract (returned none) = returned (without_api contract)
entries_of contract (returned (some nfts)) = returned (map erc721_entry nfts)

-- Whether the contract, if there is one, is no address.
abbrev pub is_refused : (Text → Bool) → Option Text → Bool
is_refused is_address none = false
is_refused is_address (some contract) = not (is_address contract)

module _ {N : Type 0} (core : Text → Core) (is_address : Text → Bool) where
  unfoldable pub get_erc20_balance :
      Text → Text → NetworkType → EthereumQuickNodeProvider N → Reply Text
  get_erc20_balance address contract network s =
      if is_address address && is_address contract
      then elim (client_for core network s) [
        | none ↦ threw
        | some c ↦ elim (token_amount c address contract) [
          | some amount ↦ returned amount
          | none ↦ balance_by_call c address contract
        ]
      ]
      else threw

  unfoldable pub get_erc721_tokens :
      Text → Option Text → NetworkType → EthereumQuickNodeProvider N → Reply (List Erc721Entry)
  get_erc721_tokens address contract network s =
      let given = non_empty contract in
      if is_address address
      then elim (client_for core network s) [
        | none ↦ threw
        | some c ↦ elim c.fetch_nfts [
          | none ↦ returned (without_api given)
          | some fetch ↦
              if is_refused is_address given then threw else entries_of given (fetch address given)
        ]
      ]
      else threw

-- `formatGasToGwei`.
abbrev pub format_gas_to_gwei : (ℤ → Text) → Text → Text
format_gas_to_gwei gwei value = elim (big_int value) [
  | none ↦ codes "0 Gwei"
  | some z ↦ gwei z ++ codes " Gwei"
]

pub record DetailedGasPrice : Type 0 where
  pub prices : GasPrices
  pub formatted : GasPrices

abbrev pub detailed : (ℤ → Text) → GasPrices → DetailedGasPrice
detailed gwei g =
    let price = text_or (some g.gas_price) (codes "0") in
    let highest = text_or (some g.max_fee_per_gas) price in
    let priority = text_or (some g.max_priority_fee_per_gas) (codes "0") in
    record {
      prices = gas_prices price highest priority;
      formatted =
          gas_prices (format_gas_to_gwei gwei price) (format_gas_to_gwei gwei highest)
            (format_gas_to_gwei gwei priority);
    }

-- `getDetailedGasPrice`; `raw` is what a strategy answers.
unfoldable pub get_detailed_gas_price :
    {N : Type 0}
    → (ℤ → Text)
    → (Strategy N → NetworkType → Reply GasPrices)
    → NetworkType
    → EthereumQuickNodeProvider N
    → Reply DetailedGasPrice
get_detailed_gas_price gwei raw network s = elim (strategy_of network s) [
  | none ↦ threw
  | some strategy ↦ elim (raw strategy network) [
    | threw ↦ threw
    | returned g ↦ returned (detailed gwei g)
  ]
]
