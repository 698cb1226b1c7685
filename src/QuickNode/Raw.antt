-- ===== src/QuickNode/Raw.antt =====
-- What the QuickNode strategy answers, and what the adapter makes of its gas prices.
use onekey_balance_kit.Adapters.{quicknode_adapter, evm_gas_price}
use onekey_balance_kit.Alchemy.Calls.{RawGasPrice, evm_fees, to_gas_price}
use onekey_balance_kit.Base.{
  ℕ, ◌+◌, ◌≡◌, ◌↔◌, refl, true, Option, none, some, [], ◌∷◌, ◌++◌, Text, codes, truthy, show,
  show-truthy, to_lower, to_lower_idem, starts_with, arith, Bool-cases, Option-cases, inl, inr, ap,
  sym, ◌∙◌,
}
use onekey_balance_kit.Cache.{Reply, returned, threw, Reply-cases}
use onekey_balance_kit.Adapters.{QuickNodeRaw}
use onekey_balance_kit.ProviderApi.{NetworkType, text_or}
use onekey_balance_kit.QuickNode.{
  Core, GasPrices, ensure_hex_address, zero_hex, get_client, fetch_lists, get_raw_balances,
  get_raw_gas_price, with_priority,
}

prefixed : (s : Text) → starts_with (codes "0x" ++ s) (codes "0x") ≡ true
prefixed s = refl

prefix-to_lower : (s : Text) → to_lower (codes "0x" ++ s) ≡ codes "0x" ++ to_lower s
unfolding to_lower
prefix-to_lower s = refl

zero_lower : to_lower zero_hex ≡ zero_hex
unfolding to_lower
zero_lower = refl

-- An address that begins with 0x in lower case is left alone.
lower_hex :
    (a : Text) → starts_with a (codes "0x") ≡ true → to_lower a ≡ a → ensure_hex_address a ≡ a
unfolding ensure_hex_address
lower_hex [] p e = absurd (ground (arith, p))
lower_hex (c ∷ a) p e = rw (e, p) refl

hex_facts :
    (a : Text)
    → (starts_with (ensure_hex_address a) (codes "0x") ≡ true)
      × (to_lower (ensure_hex_address a) ≡ ensure_hex_address a)
unfolding ensure_hex_address
hex_facts a = elim (Bool-cases (truthy a)) [
  | inr empty ↦ rw (ensure_hex_address, empty) (refl, zero_lower)
  | inl full ↦ elim (Bool-cases (starts_with (to_lower a) (codes "0x"))) [
    | inl hex ↦ rw (ensure_hex_address, full, hex) (hex, to_lower_idem a)
    | inr bare ↦
        rw (ensure_hex_address, full, bare)
          (refl, prefix-to_lower (to_lower a) ∙ ap (λ s. codes "0x" ++ s) (to_lower_idem a))
  ]
]

-- The address that the client is asked about begins with 0x and has no capital letter; from such an
-- address the conversion changes nothing.
pub ensure_hex_address_cases :
    (a : Text)
    → (starts_with (ensure_hex_address a) (codes "0x") ≡ true)
      × (to_lower (ensure_hex_address a) ≡ ensure_hex_address a)
      × (ensure_hex_address (ensure_hex_address a) ≡ ensure_hex_address a)
ensure_hex_address_cases a =
    let (p, e) = hex_facts a in (p, e, lower_hex (ensure_hex_address a) p e)

-- The client of the network with its balance of the address.
abbrev pub HasBalance : Option Core → Option Core → Text → NetworkType → Text → Type 0
HasBalance main test address network balance =
    (c : Core) × (get_client network main test ≡ some c)
    × ((n : ℕ) × (c.get_balance (ensure_hex_address address) ≡ returned n) × (balance ≡ show n))

raw_balances_of :
    (main test : Option Core) (address : Text) (network : NetworkType) (c : Core) (n : ℕ)
    → get_client network main test ≡ some c
    → c.get_balance (ensure_hex_address address) ≡ returned n
    → get_raw_balances main test address network
      ≡ returned (record {
        native_balance = show n;
        tokens = (fetch_lists c address).0;
        nfts = (fetch_lists c address).1;
      })
unfolding get_raw_balances
raw_balances_of main test address network c n there has = rw (get_raw_balances, there, has) refl

-- The strategy answers exactly if there is a client of the network and the client has a balance of the
-- address, and the answer has that balance: neither the tokens nor the NFTs can make it fail.
pub get_raw_balances_iff :
    (main test : Option Core) (address : Text) (network : NetworkType) (balance : Text)
    → ((r : QuickNodeRaw) × (get_raw_balances main test address network ≡ returned r)
        × (balance ≡ r.native_balance))
      ↔ HasBalance main test address network balance
unfolding get_raw_balances
get_raw_balances_iff main test address network balance = (
  λ h.
      let (r, e, same) = h in
      elim (Option-cases (get_client network main test)) [
        | inl missing ↦ absurd (let f = rw (get_raw_balances, missing) at e in ground (arith, f))
        | inr (c, there) ↦ elim (Reply-cases (c.get_balance (ensure_hex_address address))) [
          | inl fails ↦
              absurd (let f = rw (get_raw_balances, there, fails) at e in ground (arith, f))
          | inr (n, has) ↦
              let made = sym (raw_balances_of main test address network c n there has) ∙ e in
              let native : show n ≡ r.native_balance = ground arith in
              (c, there, (n, has, same ∙ sym native))
        ]
      ],
  λ h.
      let (c, there, rest) = h in
      let (n, has, same) = rest in
      (_, raw_balances_of main test address network c n there has, same),
)

-- The raw prices as the adapter reads them.
abbrev pub fees : GasPrices → RawGasPrice
fees g = evm_fees (some g.gas_price) (some g.max_fee_per_gas)

-- What is paid at most: the price with the priority fee, the price alone where the priority fee cannot
-- be had, and zero from a client that cannot be asked for it.
abbrev pub paid : ℕ → Option (Reply (Option ℕ)) → ℕ
paid price none = 0
paid price (some threw) = price
paid price (some (returned none)) = price
paid price (some (returned (some priority))) = price + priority

shown : (n : ℕ) (d : Text) → text_or (some (show n)) d ≡ show n
shown n d = rw (show-truthy n) refl

fees-paid :
    (price : ℕ) (priority : Option (Reply (Option ℕ)))
    → to_gas_price quicknode_adapter (fees (with_priority price priority))
      ≡ returned (show (paid price priority))
unfolding to_gas_price evm_gas_price show
fees-paid price none = refl
fees-paid price (some threw) = ap returned (shown price _)
fees-paid price (some (returned none)) = ap returned (shown price _)
fees-paid price (some (returned (some priority))) = ap returned (shown (price + priority) _)

-- Where the client of the network has a gas price, the adapter makes of the strategy's answer the sum
-- of the gas price and the priority fee, or the gas price where the client cannot tell the priority
-- fee; but zero, whatever the gas price, where the client has no method for sending requests.
pub get_raw_gas_price-paid :
    (main test : Option Core) (network : NetworkType) (c : Core) (price : ℕ)
    → get_client network main test ≡ some c
    → c.get_gas_price ≡ returned price
    → (g : GasPrices) × (get_raw_gas_price main test network ≡ returned g)
      × (to_gas_price quicknode_adapter (fees g) ≡ returned (show (paid price c.max_priority_fee)))
unfolding get_raw_gas_price to_gas_price
get_raw_gas_price-paid main test network c price there has = (
  with_priority price c.max_priority_fee,
  rw (get_raw_gas_price, there, has) refl,
  fees-paid price c.max_priority_fee,
)
