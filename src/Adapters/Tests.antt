-- ===== src/Adapters/Tests.antt =====
-- The theorems on the adapters at examples.
use onekey_balance_kit.Adapters.{EvmRaw}
use onekey_balance_kit.Base.{none, some, [], ◌∷◌, codes}

abbrev pub raw : EvmRaw
raw = record {
  native_balance = codes "15";
  token_balances =
      record {
        contract_address = codes "0xc";
        token_balance = some (codes "7");
        token_metadata = none;
      }
      ∷ [];
  owned_nfts = [];
}
