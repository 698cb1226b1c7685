-- ===== src/Db/Records.antt =====
-- The other collections of core/db/db.service.ts: histories, transactions, NFTs, prices and webhook
-- events. `R` is the type of a collection's documents; `X` that of the fields that the service only
-- copies into one.
use onekey_balance_kit.Base.{ℕ, Option, none, some, List, Text, or_else}
use onekey_balance_kit.Cache.{Reply, returned, threw}
use onekey_balance_kit.Providers.{ProviderType}

-- The filters, by the fields that they name.
pub data RecordFilter : Type 0 where
  tx_is : (tx_hash : Option Text) → RecordFilter
  nft_is : (chain_id : Option ℕ) (contract token_id : Option Text) → RecordFilter
  price_is : (symbol : Text) (chain_id : ℕ) → RecordFilter
  of_address : (chain_id : ℕ) (address : Text) → RecordFilter
  of_owner : (chain_id : ℕ) (owner : Text) → RecordFilter
  received_between : (start_time end_time : ℕ) → RecordFilter
  of_meta :
      (chain_id : ℕ) (address : Text) (provider : Option ProviderType)
      (start_time end_time : Option ℕ)
      → RecordFilter

-- The field by which a page is sorted, the last first.
pub data SortKey : Type 0 where
  by_updated_at by_block_time by_received_at : SortKey

pub record Page : Type 0 where
  pub filter : RecordFilter
  pub sort : SortKey
  pub skip : ℕ
  pub limit : ℕ

pub record TxData (X : Type 0) : Type 0 where
  pub tx_hash : Option Text
  pub rest : X

pub record NftData (X : Type 0) : Type 0 where
  pub chain_id : Option ℕ
  pub contract : Option Text
  pub token_id : Option Text
  pub rest : X

pub record PriceUpdate (X : Type 0) : Type 0 where
  pub price_usd : X
  pub metadata : Option X
  pub updated_at : ℕ

-- A model of Mongoose: `findOne`, `find` with its sort, skip and limit, `findOneAndUpdate` with an
-- upsert by `U`, and `create`.
pub record Collection (U R D : Type 0) : Type 0 where
  pub find_one : RecordFilter → D → Reply (Option R)
  pub find_page : Page → D → Reply (List R)
  pub find_one_and_update : RecordFilter → U → D → Reply (Option R × D)
  pub create : U → D → Reply (R × D)

module _ {U R D : Type 0} where
  -- An upsert that gives no document throws.
  unfoldable pub upsert : Collection U R D → RecordFilter → U → D → Reply R × D
  upsert c filter update d = elim (c.find_one_and_update filter update d) [
    | threw ↦ (threw, d)
    | returned (none, d') ↦ (threw, d')
    | returned (some r, d') ↦ (returned r, d')
  ]

  unfoldable pub get_portfolio_history :
      Collection U R D
      → ℕ
      → Text
      → Option ProviderType
      → (limit start_time end_time : Option ℕ) → D
      → Reply (List R)
  get_portfolio_history c chain_id address provider limit start_time end_time =
      c.find_page (record {
        filter = of_meta chain_id address provider start_time end_time;
        sort = by_updated_at;
        skip = 0;
        limit = or_else limit 100;
      })

  unfoldable pub get_address_tx_history :
      Collection U R D → ℕ → Text → (limit offset : Option ℕ) → D → Reply (List R)
  get_address_tx_history c chain_id address limit offset = c.find_page (record {
    filter = of_address chain_id address;
    sort = by_block_time;
    skip = or_else offset 0;
    limit = or_else limit 20;
  })

  unfoldable pub get_address_nfts :
      Collection U R D → ℕ → Text → (limit offset : Option ℕ) → D → Reply (List R)
  get_address_nfts c chain_id address limit offset = c.find_page (record {
    filter = of_owner chain_id address;
    sort = by_updated_at;
    skip = or_else offset 0;
    limit = or_else limit 50;
  })

  unfoldable pub get_webhook_events :
      Collection U R D → (start_time end_time : ℕ) → (limit : Option ℕ) → D → Reply (List R)
  get_webhook_events c start_time end_time limit = c.find_page (record {
    filter = received_between start_time end_time;
    sort = by_received_at;
    skip = 0;
    limit = or_else limit 100;
  })

  unfoldable pub save_webhook_event : Collection U R D → U → D → Reply (R × D)
  save_webhook_event c event = c.create event

  unfoldable pub get_nft_meta : Collection U R D → ℕ → Text → Text → D → Reply (Option R)
  get_nft_meta c chain_id contract token_id =
      c.find_one (nft_is (some chain_id) (some contract) (some token_id))

  unfoldable pub get_token_price : Collection U R D → Text → ℕ → D → Reply (Option R)
  get_token_price c symbol chain_id = c.find_one (price_is symbol chain_id)

module _ {X R D : Type 0} where
  unfoldable pub save_tx_history : Collection (TxData X) R D → TxData X → D → Reply R × D
  unfolding upsert
  save_tx_history c tx = upsert c (tx_is tx.tx_hash) tx

  unfoldable pub save_nft_owner : Collection (NftData X) R D → NftData X → D → Reply R × D
  unfolding upsert
  save_nft_owner c nft = upsert c (nft_is nft.chain_id nft.contract nft.token_id) nft

  unfoldable pub save_nft_meta : Collection (NftData X) R D → NftData X → D → Reply R × D
  unfolding upsert
  save_nft_meta c nft = upsert c (nft_is nft.chain_id nft.contract nft.token_id) nft

  unfoldable pub save_token_price :
      Collection (PriceUpdate X) R D → Text → ℕ → X → Option X → ℕ → D → Reply R × D
  unfolding upsert
  save_token_price c symbol chain_id price metadata now =
      upsert c (price_is symbol chain_id)
        (record { price_usd = price; metadata = metadata; updated_at = now })
