-- ===== src/EvmStrategy/Raw.antt =====
-- What the EVM strategy answers.
use onekey_balance_kit.Adapters.{EvmRaw, EvmRawToken}
use onekey_balance_kit.Base.{
  ◌≡◌, refl, ℕ, Option, List, [], ◌∷◌, Text, show, map, All, arith, inl, inr, ap, sym, ◌∙◌,
}
use onekey_balance_kit.Cache.{returned, Reply-cases}
use onekey_balance_kit.EvmStrategy.{
  SdkToken, SdkClient, evm_raw_token, with_metadata, evm_raw_balances,
}
use onekey_balance_kit.Portfolio.{TokenMetadata}

module _ {X : Type 0} (c : SdkClient X) where
  abbrev pub HasMetadata : SdkToken → Type 0
  HasMetadata t =
      (m : Option TokenMetadata) × (c.get_token_metadata t.contract_address ≡ returned m)

  -- The tokens are answered with the metadata of each.
  with_metadata_all :
      (held : List SdkToken) (tokens : List EvmRawToken)
      → with_metadata c held ≡ returned tokens
      → All HasMetadata held
        × (map (λ t. t.contract_address) tokens ≡ map (λ t. t.contract_address) held)
  unfolding with_metadata
  with_metadata_all [] tokens e = let is : [] ≡ tokens = ground arith in (tt, rw (← is) refl)
  with_metadata_all (t ∷ held) tokens e =
      elim (Reply-cases (c.get_token_metadata t.contract_address)) [
        | inl fails ↦ absurd (let f = rw (with_metadata, fails) at e in ground (arith, f))
        | inr (m, there) ↦ elim (Reply-cases (with_metadata c held)) [
          | inl fails ↦ absurd (let f = rw (with_metadata, there, fails) at e in ground (arith, f))
          | inr (rest, has) ↦
              let made : returned (evm_raw_token t m ∷ rest) ≡ returned tokens =
                rw (with_metadata, there, has) at e in
              let is : evm_raw_token t m ∷ rest ≡ tokens = ground arith in
              let (all, same) = with_metadata_all held rest has in
              (((m, there), all), rw (← is) (ap (λ l. t.contract_address ∷ l) same))
        ]
      ]

  -- What the calls of the client return for an answer.
  pub record IsFetched (address : Text) (r : EvmRaw) : Type 0 where
    pub wei : ℕ
    pub held : List SdkToken
    pub has_balance : c.get_balance address ≡ returned wei
    pub has_tokens : c.get_token_balances address ≡ returned held
    pub has_metadata : All HasMetadata held
    pub has_nfts : c.get_nfts_for_owner address ≡ returned r.owned_nfts
    pub balance : r.native_balance ≡ show wei
    pub tokens : map (λ t. t.contract_address) r.token_balances ≡ map (λ t. t.contract_address) held

  -- An answer of the strategy has the balance and the NFTs of the client, and the tokens of the client in
  -- their order; all calls have returned, also that for the metadata of every single token.
  pub evm_raw_balances-IsFetched :
      (address : Text) (r : EvmRaw) → evm_raw_balances c address ≡ returned r → IsFetched address r
  unfolding evm_raw_balances
  evm_raw_balances-IsFetched address r e = elim (Reply-cases (c.get_balance address)) [
    | inl fails ↦ absurd (let f = rw (evm_raw_balances, fails) at e in ground (arith, f))
    | inr (wei, a) ↦ elim (Reply-cases (c.get_token_balances address)) [
      | inl fails ↦ absurd (let f = rw (evm_raw_balances, a, fails) at e in ground (arith, f))
      | inr (held, b) ↦ elim (Reply-cases (with_metadata c held)) [
        | inl fails ↦ absurd (let f = rw (evm_raw_balances, a, b, fails) at e in ground (arith, f))
        | inr (tokens, d) ↦ elim (Reply-cases (c.get_nfts_for_owner address)) [
          | inl fails ↦
              absurd (let f = rw (evm_raw_balances, a, b, d, fails) at e in ground (arith, f))
          | inr (nfts, n) ↦
              let made : returned (record {
                native_balance = show wei;
                token_balances = tokens;
                owned_nfts = nfts;
              })
                  ≡ returned r =
                rw (evm_raw_balances, a, b, d, n) at e in
              let (all, same) = with_metadata_all held tokens d in
              let kept : tokens ≡ r.token_balances = ground arith in
              let owned : nfts ≡ r.owned_nfts = ground arith in
              record {
                wei = wei;
                held = held;
                has_balance = a;
                has_tokens = b;
                has_metadata = all;
                has_nfts = n ∙ ap returned owned;
                balance = ground (arith, made);
                tokens = ap (map (λ t. t.contract_address)) (sym kept) ∙ same;
              }
        ]
      ]
    ]
  ]
