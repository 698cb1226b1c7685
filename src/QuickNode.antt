-- ===== src/QuickNode.antt =====
-- providers/strategies/implementations/evm-quicknode.strategy.ts: the strategy of the QuickNode client. The
-- client is an argument; a method that it may lack is an Option, and a number that the source
-- reads with `BigInt` is a number.
pub mod BigInt
pub mod Estimate
pub mod Contracts
pub mod Numbers
pub mod Provider
pub mod Provided
pub mod Raw
pub mod Tests
use onekey_balance_kit.Adapters.{QuickNodeRawToken, QuickNodeRawNft, QuickNodeRaw}
use onekey_balance_kit.Base.{
  ℕ, ◌+◌, Bool, true, false, Option, none, some, List, [], ◌∷◌, ◌++◌, Text, codes, truthy, show,
  map, to_lower, starts_with, if◌then◌else◌,
}
use onekey_balance_kit.Cache.{Reply, returned, threw}
use onekey_balance_kit.Db.{or_number}
use onekey_balance_kit.QuickNode.BigInt.{ℤ}
use onekey_balance_kit.ProviderApi.{NetworkType, mainnet, testnet, text_or}

pub record QnToken : Type 0 where
  pub address : Text
  pub symbol : Option Text
  pub name : Option Text
  pub amount : Option Text
  pub decimals : Option ℕ

pub record QnNft : Type 0 where
  pub collection_address : Text
  pub token_id : Text
  pub name : Option Text
  pub collection_name : Option Text
  pub image_url : Option Text
  pub collection_token_type : Option Text
  pub traits : Option (List Text)

-- The parameters of `eth_estimateGas`.
pub record EstimateRequest : Type 0 where
  pub from : Text
  pub to : Option Text
  pub tx_data : Option Text
  pub value : Option Text

-- The answer of `call`: a text, nothing, or any other value.
pub data CallResult : Type 0 where
  call_text : Text → CallResult
  no_result : CallResult
  other_result : CallResult

-- What the source calls of the client. The two fetches take a wallet and the contract that they are
-- restricted to; they answer with the list of the answer, if it has one. `max_priority_fee` and
-- `send_estimate` are `send('eth_maxPriorityFeePerGas')` and `send('eth_estimateGas')`; `estimate_gas` takes
-- the receiver, the data and the value, and `call` the contract and the data. A trait of an NFT is
-- its JSON text.
pub record Core : Type 0 where
  pub get_balance : Text → Reply ℕ
  pub fetch_token_balances : Option (Text → Option Text → Reply (Option (List QnToken)))
  pub fetch_nfts : Option (Text → Option Text → Reply (Option (List QnNft)))
  pub get_gas_price : Reply ℕ
  pub max_priority_fee : Option (Reply (Option ℕ))
  pub send_estimate : Option (EstimateRequest → Reply Text)
  pub estimate_gas : Option Text → Option Text → Option ℤ → Reply ℕ
  pub call : Text → Text → Reply CallResult

abbrev pub zero_hex : Text
zero_hex = codes "0x0000000000000000000000000000000000000000"

unfoldable pub ensure_hex_address : Text → Text
ensure_hex_address address =
    if truthy address
    then (if starts_with (to_lower address) (codes "0x")
        then to_lower address
        else codes "0x" ++ to_lower address)
    else zero_hex

abbrev pub get_client : NetworkType → Option Core → Option Core → Option Core
get_client mainnet main test = main
get_client testnet main none = main
get_client testnet main (some c) = some c

abbrev pub raw_token : QnToken → QuickNodeRawToken
raw_token t = record {
  contract_address = t.address;
  symbol = some (text_or t.symbol []);
  name = some (text_or t.name (text_or t.symbol []));
  balance = some (text_or t.amount (codes "0"));
  decimals = some (or_number t.decimals 18);
}

abbrev pub raw_nft : QnNft → QuickNodeRawNft
raw_nft n = record {
  contract_address = n.collection_address;
  token_id = n.token_id;
  name = some (text_or n.name []);
  symbol = some (text_or n.collection_name []);
  metadata_image = some (text_or n.image_url []);
}

-- The list of an answer, converted; none where the method or the list is missing.
abbrev pub fetched :
    {A B : Type 0}
    → (A → B)
    → Option (Text → Option Text → Reply (Option (List A)))
    → Text
    → Reply (List B)
fetched f none address = returned []
fetched f (some fetch) address = elim (fetch address none) [
  | threw ↦ threw
  | returned none ↦ returned []
  | returned (some xs) ↦ returned (map f xs)
]

-- The tokens and the NFTs; what has been fetched when a fetch throws is kept.
unfoldable pub fetch_lists : Core → Text → List QuickNodeRawToken × List QuickNodeRawNft
fetch_lists c address = elim (fetched raw_token c.fetch_token_balances address) [
  | threw ↦ ([], [])
  | returned tokens ↦ elim (fetched raw_nft c.fetch_nfts address) [
    | threw ↦ (tokens, [])
    | returned nfts ↦ (tokens, nfts)
  ]
]

unfoldable pub get_raw_balances :
    Option Core → Option Core → Text → NetworkType → Reply QuickNodeRaw
unfolding ensure_hex_address fetch_lists
get_raw_balances main test address network = elim (get_client network main test) [
  | none ↦ threw
  | some c ↦ elim (c.get_balance (ensure_hex_address address)) [
    | threw ↦ threw
    | returned n ↦ returned (record {
      native_balance = show n;
      tokens = (fetch_lists c address).0;
      nfts = (fetch_lists c address).1;
    })
  ]
]

pub record GasPrices : Type 0 where
  pub gas_price : Text
  pub max_fee_per_gas : Text
  pub max_priority_fee_per_gas : Text

abbrev pub gas_prices : Text → Text → Text → GasPrices
gas_prices a b c = record { gas_price = a; max_fee_per_gas = b; max_priority_fee_per_gas = c }

-- The prices once `getGasPrice` has answered.
abbrev pub with_priority : ℕ → Option (Reply (Option ℕ)) → GasPrices
with_priority price none = gas_prices (show price) (codes "0") (codes "0")
with_priority price (some threw) = gas_prices (show price) (show price) (codes "0")
with_priority price (some (returned none)) = gas_prices (show price) (show price) (codes "0")
with_priority price (some (returned (some priority))) =
    gas_prices (show price) (show (price + priority)) (show priority)

unfoldable pub get_raw_gas_price : Option Core → Option Core → NetworkType → Reply GasPrices
get_raw_gas_price main test network = elim (get_client network main test) [
  | none ↦ threw
  | some c ↦ elim c.get_gas_price [
    | threw ↦ returned (gas_prices (codes "0") (codes "0") (codes "0"))
    | returned price ↦ returned (with_priority price c.max_priority_fee)
  ]
]
