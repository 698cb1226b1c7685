-- ===== src/Db/Tests.antt =====
-- The theorems on core/db at examples.
use onekey_balance_kit.Base.{ℕ, false, none, some, [], codes}
use onekey_balance_kit.Chains.{ethereum}
use onekey_balance_kit.Portfolio.{NativeBalance, BalanceResponse, PortfolioSnapshot}

abbrev pub ether : NativeBalance ℕ
ether = record { symbol = codes "ETH"; balance = codes "15"; decimals = some 18; usd = none }

abbrev pub response : BalanceResponse ℕ
response = record { native_balance = ether; tokens = []; nfts = []; updated_at = 5 }

abbrev pub snapshot : PortfolioSnapshot ℕ
snapshot = record {
  chain = ethereum;
  chain_id = 1;
  address = codes "0xa";
  provider = none;
  native = some ether;
  fungibles = some [];
  nfts = some [];
  block_number = some 0;
  schema_ver = none;
  webhook_monitored = false;
  expires_at = some 1805;
}
