-- ===== src/QuickNode/Numbers.antt =====
-- What becomes of numbers on the way to the client of QuickNode and back.
use onekey_balance_kit.Base.{
  length, ℕ, ◌≡◌, refl, Bool, true, Option, none, some, Text, codes, ◌++◌, show, starts_with,
  truthy, Bool-cases, inl, inr,
}
use onekey_balance_kit.Cache.{Reply, returned}
use onekey_balance_kit.ProviderApi.{NetworkType}
use onekey_balance_kit.QuickNode.BigInt.RoundTrip.{big_int-pad_start, big_int-show_hex}
use onekey_balance_kit.QuickNode.BigInt.{pos, big_int, show_hex, pad_start}
use onekey_balance_kit.QuickNode.Contracts.{
  client_for, token_amount, balance_by_call, balance_call, get_erc20_balance,
}
use onekey_balance_kit.QuickNode.Estimate.{
  TransactionRequest, sent_value, request_of, estimate_request, as_decimal, get_raw_estimate_gas,
}
use onekey_balance_kit.QuickNode.Provider.{EthereumQuickNodeProvider}
use onekey_balance_kit.QuickNode.{Core, EstimateRequest, call_text, ensure_hex_address, get_client}

-- A value is sent as a text of the same number.
sent_value-read :
    (v : Text) (n : ℕ)
    → big_int v ≡ some (pos n)
    → (t : Text) × (sent_value v ≡ returned t) × (big_int t ≡ some (pos n))
sent_value-read v n e = elim (Bool-cases (starts_with v (codes "0x"))) [
  | inl hex ↦ (v, rw hex refl, e)
  | inr other ↦ (codes "0x" ++ show_hex n, rw (other, e) refl, big_int-show_hex n)
]

estimate_request-sent :
    (tx : TransactionRequest) (v t : Text)
    → tx.value ≡ some v
    → truthy v ≡ true
    → sent_value v ≡ returned t
    → estimate_request tx ≡ returned (request_of tx (some t))
unfolding estimate_request
estimate_request-sent tx v t e full sent = rw (estimate_request, e, full, sent) refl

as_decimal_lem : (m : ℕ) → as_decimal (returned (codes "0x" ++ show_hex m)) ≡ returned (show m)
as_decimal_lem m = rw (as_decimal, big_int-show_hex m) refl

-- A node is asked for an estimate with the sender, and with a value that stands for the number of the
-- transaction's value, be it a decimal or a hexadecimal numeral; where the node answers requests with
-- hexadecimal numerals, the estimate is the answer to that request in decimal.
pub get_raw_estimate_gas-answered :
    (main test : Option Core) (network : NetworkType) (c : Core)
    (send : EstimateRequest → Reply Text) (gas : EstimateRequest → ℕ) (tx : TransactionRequest)
    (v : Text) (n : ℕ)
    → get_client network main test ≡ some c
    → c.send_estimate ≡ some send
    → ((r : EstimateRequest) → send r ≡ returned (codes "0x" ++ show_hex (gas r)))
    → tx.value ≡ some v
    → truthy v ≡ true
    → big_int v ≡ some (pos n)
    → (r : EstimateRequest) × (t : Text) × (get_raw_estimate_gas main test tx network
        ≡ returned (show (gas r)))
      × (r.value ≡ some t)
      × (big_int t ≡ some (pos n))
      × (r.from ≡ ensure_hex_address tx.from)
unfolding get_raw_estimate_gas
get_raw_estimate_gas-answered main test network c send gas tx v n there has answers e full is =
    let (t, sent, same) = sent_value-read v n is in
    let r = request_of tx (some t) in
    let made = estimate_request-sent tx v t e full sent in
    (
      r,
      t,
      rw (get_raw_estimate_gas, there, has, made, answers r) (as_decimal_lem (gas r)),
      refl,
      same,
      refl,
    )

-- `balanceOf(address)` by the contract ABI: the selector, and the 40 digits of the address behind 24 zeros.
abbrev pub balance_of : Text → Text
balance_of digits = codes "0x70a08231000000000000000000000000" ++ digits

balance_call_lem :
    (digits : Text) → length digits ≡ 40 → balance_call (codes "0x" ++ digits) ≡ balance_of digits
unfolding balance_call
balance_call_lem digits e = rw (balance_call, pad_start, e) refl

-- The balance of a token that the API of QuickNode does not list: the contract is asked by the ABI for the
-- balance of the owner, whose address is 0x and 40 digits, and the answer, a hexadecimal numeral of
-- any width, is given out in decimal.
pub get_erc20_balance-called :
    {N : Type 0} (core : Text → Core) (is_address : Text → Bool) (digits contract : Text)
    (network : NetworkType) (s : EthereumQuickNodeProvider N) (c : Core) (width n : ℕ)
    → length digits ≡ 40
    → is_address (codes "0x" ++ digits) ≡ true
    → is_address contract ≡ true
    → client_for core network s ≡ some c
    → token_amount c (codes "0x" ++ digits) contract ≡ none
    → c.call (ensure_hex_address contract) (balance_of digits)
      ≡ returned (call_text (codes "0x" ++ pad_start width b'0' (show_hex n)))
    → get_erc20_balance core is_address (codes "0x" ++ digits) contract network s
      ≡ returned (show n)
unfolding get_erc20_balance
get_erc20_balance-called core is_address digits contract network s c width n full owner token there
      unlisted answers =
    rw
      (
        get_erc20_balance,
        owner,
        token,
        there,
        unlisted,
        balance_by_call,
        balance_call_lem digits full,
        answers,
        big_int-pad_start width n,
      )
      refl
