-- ===== src/Adapters/Completed.antt =====
-- What the answers of the adapters have.
use onekey_balance_kit.Base.{
  ℕ, ◌≡◌, ◌≢◌, ◌⊎◌, inl, inr, refl, subst, true, false, Option, none, some, List, [], ◌∷◌, Text,
  codes, truthy, non_empty, map, Each, nat_beq_iff, arith,
}
use onekey_balance_kit.Db.{or_number}
use onekey_balance_kit.Adapters.{
  metadata, EvmRawToken, EvmRawNft, SolanaRawToken, SolanaRawNft, QuickNodeRawToken,
  QuickNodeRawNft, AdapterKind, evm_adapter, solana_adapter, quicknode_adapter, RawBalances,
  evm_raw, solana_raw, quicknode_raw, evm_token, evm_nft, solana_token, solana_nft, quicknode_token,
  quicknode_nft, evm_balances_response, solana_balances_response, quicknode_balances_response,
  to_balances_response,
}
use onekey_balance_kit.Cache.{returned}
use onekey_balance_kit.ProviderApi.{text_or, then_get, TokenBalance, NftBalance, BalancesResponse}

-- A token and an NFT of a raw answer, whatever the provider calls their parts; `usual_decimals` are those of
-- the provider's tokens.
pub record RawToken : Type 0 where
  pub mint : Text
  pub amount : Option Text
  pub symbol : Option Text
  pub decimals : Option ℕ
  pub name : Option Text
  pub usual_decimals : ℕ

pub record RawNft : Type 0 where
  pub mint : Text
  pub token_id : Text
  pub name : Option Text
  pub image : Option Text
  pub collection : Option Text

abbrev pub of_evm_token : EvmRawToken → RawToken
of_evm_token t = record {
  mint = t.contract_address;
  amount = t.token_balance;
  symbol = then_get t.token_metadata (λ m. m.symbol);
  decimals = then_get t.token_metadata (λ m. m.decimals);
  name = then_get t.token_metadata (λ m. m.name);
  usual_decimals = 18;
}

abbrev pub of_solana_token : SolanaRawToken → RawToken
of_solana_token t = record {
  mint = t.mint;
  amount = t.amount;
  symbol = t.symbol;
  decimals = t.decimals;
  name = t.name;
  usual_decimals = 9;
}

abbrev pub of_quicknode_token : QuickNodeRawToken → RawToken
of_quicknode_token t = record {
  mint = t.contract_address;
  amount = t.balance;
  symbol = t.symbol;
  decimals = t.decimals;
  name = t.name;
  usual_decimals = 18;
}

-- The name of an EVM NFT, or else that of its contract.
abbrev pub of_evm_nft : EvmRawNft → RawNft
of_evm_nft n = record {
  mint = n.contract_address;
  token_id = n.token_id;
  name = elim (non_empty n.raw_name) [ none ↦ n.contract_name | some s ↦ some s ];
  image = n.raw_image;
  collection = n.contract_name;
}

abbrev pub of_solana_nft : SolanaRawNft → RawNft
of_solana_nft n = record {
  mint = n.mint;
  token_id = n.mint;
  name = n.name;
  image = n.image;
  collection = n.collection_name;
}

abbrev pub of_quicknode_nft : QuickNodeRawNft → RawNft
of_quicknode_nft n = record {
  mint = n.contract_address;
  token_id = n.token_id;
  name = n.name;
  image = n.metadata_image;
  collection = n.symbol;
}

abbrev pub raw_native : RawBalances → Text
raw_native (evm_raw r) = r.native_balance
raw_native (solana_raw r) = r.sol_balance
raw_native (quicknode_raw r) = r.native_balance

abbrev pub raw_tokens : RawBalances → List RawToken
raw_tokens (evm_raw r) = map of_evm_token r.token_balances
raw_tokens (solana_raw r) = map of_solana_token r.token_accounts
raw_tokens (quicknode_raw r) = map of_quicknode_token r.tokens

abbrev pub raw_nfts : RawBalances → List RawNft
raw_nfts (evm_raw r) = map of_evm_nft r.owned_nfts
raw_nfts (solana_raw r) = map of_solana_nft r.nfts
raw_nfts (quicknode_raw r) = map of_quicknode_nft r.nfts

-- A value that is given and not empty is kept, and any other replaced.
abbrev pub IsFilled : Option Text → Text → Text → Type 0
IsFilled none usual s = s ≡ usual
IsFilled (some t) usual s = ((truthy t ≡ true) × (s ≡ t)) ⊎ ((truthy t ≡ false) × (s ≡ usual))

abbrev pub IsFilledNumber : Option ℕ → ℕ → ℕ → Type 0
IsFilledNumber none usual n = n ≡ usual
IsFilledNumber (some m) usual n = ((m ≢ 0) × (n ≡ m)) ⊎ ((m ≡ 0) × (n ≡ usual))

pub record IsToken (t : RawToken) (b : TokenBalance) : Type 0 where
  pub same_mint : b.mint ≡ t.mint
  pub balance : IsFilled t.amount (codes "0") b.balance
  pub symbol : Text
  pub decimals : ℕ
  pub name : Text
  pub metadata :
      b.token_metadata
      ≡ some (record { symbol = some symbol; decimals = some decimals; name = some name })
  pub of_symbol : IsFilled t.symbol (codes "UNKNOWN") symbol
  pub of_decimals : IsFilledNumber t.decimals t.usual_decimals decimals
  pub of_name : IsFilled t.name (codes "Unknown Token") name

pub record IsNft (n : RawNft) (b : NftBalance) : Type 0 where
  pub same_mint : b.mint ≡ n.mint
  pub same_id : b.token_id ≡ some n.token_id
  pub name : Text
  pub image : Text
  pub collection : Text
  pub metadata :
      b.token_metadata
      ≡ some (record { name = some name; image = some image; collection_name = some collection })
  pub of_name : IsFilled n.name (codes "Unknown NFT") name
  pub of_image : IsFilled n.image [] image
  pub of_collection : IsFilled n.collection (codes "Unknown Collection") collection

pub record IsComplete (raw : RawBalances) (b : BalancesResponse) : Type 0 where
  pub native : b.native_balance ≡ raw_native raw
  pub tokens : Each IsToken (raw_tokens raw) b.tokens
  pub nfts : Each IsNft (raw_nfts raw) b.nfts

filled : (o : Option Text) (usual : Text) → IsFilled o usual (text_or o usual)
filled none usual = refl
filled (some []) usual = inr (refl, refl)
filled (some (c ∷ s)) usual = inl (refl, refl)

filled_number : (o : Option ℕ) (usual : ℕ) → IsFilledNumber o usual (or_number o usual)
filled_number none usual = refl
filled_number (some m) usual = ground (arith, nat_beq_iff m 0)

-- What a conversion has in common with the token that it converts.
is_token :
    (t : RawToken)
    → IsToken t (record {
      mint = t.mint;
      token_metadata = some (metadata t.symbol t.decimals t.name t.usual_decimals);
      balance = text_or t.amount (codes "0");
    })
is_token t = record {
  same_mint = refl;
  balance = filled t.amount (codes "0");
  symbol = _;
  decimals = _;
  name = _;
  metadata = refl;
  of_symbol = filled t.symbol (codes "UNKNOWN");
  of_decimals = filled_number t.decimals t.usual_decimals;
  of_name = filled t.name (codes "Unknown Token");
}

is_nft :
    (n : RawNft)
    → IsNft n (record {
      mint = n.mint;
      token_id = some n.token_id;
      token_metadata = some (record {
        name = some (text_or n.name (codes "Unknown NFT"));
        image = some (text_or n.image []);
        collection_name = some (text_or n.collection (codes "Unknown Collection"));
      });
    })
is_nft n = record {
  same_mint = refl;
  same_id = refl;
  name = _;
  image = _;
  collection = _;
  metadata = refl;
  of_name = filled n.name (codes "Unknown NFT");
  of_image = filled n.image [];
  of_collection = filled n.collection (codes "Unknown Collection");
}

evm_nft_name :
    (raw contract : Option Text) (usual : Text)
    → text_or (elim (non_empty raw) [ none ↦ contract | some s ↦ some s ]) usual
      ≡ text_or raw (text_or contract usual)
evm_nft_name none contract usual = refl
evm_nft_name (some []) contract usual = refl
evm_nft_name (some (c ∷ s)) contract usual = refl

is_evm_nft : (n : EvmRawNft) → IsNft (of_evm_nft n) (evm_nft n)
is_evm_nft n = record {
  same_mint = refl;
  same_id = refl;
  name = _;
  image = _;
  collection = _;
  metadata = refl;
  of_name =
      subst (λ s. IsFilled (of_evm_nft n).name (codes "Unknown NFT") s)
        (evm_nft_name n.raw_name n.contract_name (codes "Unknown NFT"))
        (filled (of_evm_nft n).name (codes "Unknown NFT"));
  of_image = filled n.raw_image [];
  of_collection = filled n.contract_name (codes "Unknown Collection");
}

-- A list that is converted, against its members in the common form.
Each-converted :
    {A B R : Type 0} (P : R → B → Type 0) (view : A → R) (f : A → B)
    → ((a : A) → P (view a) (f a))
    → (xs : List A) → Each P (map view xs) (map f xs)
Each-converted P view f h [] = tt
Each-converted P view f h (x ∷ xs) = (h x, Each-converted P view f h xs)

-- What an adapter makes of a provider's raw answer has the native balance, the tokens and the NFTs of the
-- answer, in their order: each with its address and, where the answer gives them, its balance, symbol,
-- decimals, name, image and collection; what is missing or empty is filled in.
pub to_balances_response-IsComplete :
    (raw : RawBalances) (b : BalancesResponse) (kind : AdapterKind)
    → to_balances_response kind raw ≡ returned b
    → IsComplete raw b
unfolding to_balances_response evm_balances_response solana_balances_response
    quicknode_balances_response
to_balances_response-IsComplete (evm_raw r) b evm_adapter e =
    let same : evm_balances_response r ≡ b = ground (arith, e) in
    rw (← same) (record {
      native = refl;
      tokens =
          Each-converted IsToken of_evm_token evm_token (λ t. is_token (of_evm_token t))
            r.token_balances;
      nfts = Each-converted IsNft of_evm_nft evm_nft is_evm_nft r.owned_nfts;
    })
to_balances_response-IsComplete (evm_raw r) b solana_adapter e = absurd (ground (arith, e))
to_balances_response-IsComplete (evm_raw r) b quicknode_adapter e = absurd (ground (arith, e))
to_balances_response-IsComplete (solana_raw r) b solana_adapter e =
    let same : solana_balances_response r ≡ b = ground (arith, e) in
    rw (← same) (record {
      native = refl;
      tokens =
          Each-converted IsToken of_solana_token solana_token (λ t. is_token (of_solana_token t))
            r.token_accounts;
      nfts = Each-converted IsNft of_solana_nft solana_nft (λ n. is_nft (of_solana_nft n)) r.nfts;
    })
to_balances_response-IsComplete (solana_raw r) b evm_adapter e = absurd (ground (arith, e))
to_balances_response-IsComplete (solana_raw r) b quicknode_adapter e = absurd (ground (arith, e))
to_balances_response-IsComplete (quicknode_raw r) b quicknode_adapter e =
    let same : quicknode_balances_response r ≡ b = ground (arith, e) in
    rw (← same) (record {
      native = refl;
      tokens =
          Each-converted IsToken of_quicknode_token quicknode_token
            (λ t. is_token (of_quicknode_token t)) r.tokens;
      nfts =
          Each-converted IsNft of_quicknode_nft quicknode_nft (λ n. is_nft (of_quicknode_nft n))
            r.nfts;
    })
to_balances_response-IsComplete (quicknode_raw r) b evm_adapter e = absurd (ground (arith, e))
to_balances_response-IsComplete (quicknode_raw r) b solana_adapter e = absurd (ground (arith, e))
