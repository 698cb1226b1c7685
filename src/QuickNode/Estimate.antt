-- ===== src/QuickNode/Estimate.antt =====
-- The estimate of gas of providers/strategies/implementations/evm-quicknode.strategy.ts.
use onekey_balance_kit.Base.{
  ℕ, Option, none, some, Text, codes, ◌++◌, show, non_empty, starts_with, if◌then◌else◌,
}
use onekey_balance_kit.Cache.{Reply, returned, threw}
use onekey_balance_kit.ProviderApi.{NetworkType}
use onekey_balance_kit.QuickNode.BigInt.{big_int, show_int, show_int_hex}
use onekey_balance_kit.QuickNode.{Core, EstimateRequest, ensure_hex_address, get_client}

-- `EthereumTransactionRequest`, the fields that are read of it.
pub record TransactionRequest : Type 0 where
  pub from : Text
  pub to : Option Text
  pub value : Option Text
  pub tx_data : Option Text

abbrev pub receiver : TransactionRequest → Option Text
receiver tx = elim (non_empty tx.to) [ none ↦ none | some t ↦ some (ensure_hex_address t) ]

-- The value as it is sent.
abbrev pub sent_value : Text → Reply Text
sent_value v =
    if starts_with v (codes "0x")
    then returned v
    else elim (big_int v) [ none ↦ threw | some z ↦ returned (codes "0x" ++ show_int_hex z) ]

abbrev pub request_of : TransactionRequest → Option Text → EstimateRequest
request_of tx value = record {
  from = ensure_hex_address tx.from;
  to = receiver tx;
  tx_data = non_empty tx.tx_data;
  value = value;
}

unfoldable pub estimate_request : TransactionRequest → Reply EstimateRequest
estimate_request tx = elim (non_empty tx.value) [
  | none ↦ returned (request_of tx none)
  | some v ↦ elim (sent_value v) [
    | threw ↦ threw
    | returned sent ↦ returned (request_of tx (some sent))
  ]
]

-- `BigInt(answer).toString()`.
abbrev pub as_decimal : Reply Text → Reply Text
as_decimal threw = threw
as_decimal (returned t) = elim (big_int t) [ none ↦ threw | some z ↦ returned (show_int z) ]

abbrev pub shown_gas : Reply ℕ → Reply Text
shown_gas threw = threw
shown_gas (returned n) = returned (show n)

-- The estimate of a client that has no method for sending requests.
unfoldable pub estimate_by_api : Core → TransactionRequest → Reply Text
estimate_by_api c tx = elim (non_empty tx.value) [
  | none ↦ shown_gas (c.estimate_gas (receiver tx) tx.tx_data none)
  | some v ↦ elim (big_int v) [
    | none ↦ threw
    | some z ↦ shown_gas (c.estimate_gas (receiver tx) tx.tx_data (some z))
  ]
]

-- `getRawEstimateGas`.
unfoldable pub get_raw_estimate_gas :
    Option Core → Option Core → TransactionRequest → NetworkType → Reply Text
unfolding estimate_request estimate_by_api
get_raw_estimate_gas main test tx network = elim (get_client network main test) [
  | none ↦ threw
  | some c ↦ elim c.send_estimate [
    | none ↦ estimate_by_api c tx
    | some send ↦ elim (estimate_request tx) [ threw ↦ threw | returned r ↦ as_decimal (send r) ]
  ]
]
