-- ===== src/EvmChain/Overlapped.antt =====
-- Calls of `getBalances` that overlap on one chain service, which serves several chains (ethereum.service.ts
-- a main net and a test net).
use onekey_balance_kit.Base.{
  ℕ, ◌≡◌, refl, ◌∙◌, ap, Bool, Option, none, some, List, [], ◌∷◌, Text, arith,
}
use onekey_balance_kit.Cache.{returned}
use onekey_balance_kit.EvmChain.{
  EvmChainService, EvmBalances, set_chain_id, ask_provider, begin_balances, finish_balances,
}
use onekey_balance_kit.ProviderApi.{BalancesResponse, ProviderApi}
use onekey_balance_kit.ProviderFactory.{Nest}

-- A call as it begins: the address, the chain ID and the provider.
pub record Begin : Type 0 where
  pub address : Text
  pub chain_id : Option ℕ
  pub provider_type : Option Text

-- The last chain ID that a call has named, of those that follow `n`.
unfoldable pub last_chain_id : List Begin → ℕ → ℕ
last_chain_id [] n = n
last_chain_id (b ∷ bs) n = last_chain_id bs (elim b.chain_id [ none ↦ n | some m ↦ m ])

module _ {C I : Type 0} (nest : Nest C I) (api : ProviderApi I) (is_address : Text → Bool) where
  -- The state that calls leave when each of them has begun.
  unfoldable pub run_begins : List Begin → EvmChainService C I → EvmChainService C I
  run_begins [] s = s
  run_begins (b ∷ bs) s =
      run_begins bs (begin_balances nest api is_address b.address b.chain_id b.provider_type s).1

  begin_balances-chain_id :
      (b : Begin) (s : EvmChainService C I)
      → (begin_balances nest api is_address b.address b.chain_id b.provider_type
          s).1.current_chain_id
        ≡ elim b.chain_id [ none ↦ s.current_chain_id | some m ↦ m ]
  unfolding begin_balances ask_provider set_chain_id
  begin_balances-chain_id b s = ground arith

  run_begins-chain_id :
      (bs : List Begin) (s : EvmChainService C I)
      → (run_begins bs s).current_chain_id ≡ last_chain_id bs s.current_chain_id
  unfolding run_begins last_chain_id
  run_begins-chain_id [] s = refl
  run_begins-chain_id (b ∷ bs) s =
      run_begins-chain_id bs
        (begin_balances nest api is_address b.address b.chain_id b.provider_type s).1
      ∙ ap (last_chain_id bs) (begin_balances-chain_id b s)

  -- An answer that arrives after other calls have begun bears the chain ID of the last of them that names
  -- one, not that of its own call.
  pub finish_balances-last :
      {U : Type 0} (zero_usd : U) (bs : List Begin) (b : Begin) (s : EvmChainService C I)
      (reply : BalancesResponse) (now : ℕ)
      → (r : EvmBalances U) × (finish_balances zero_usd (returned reply) now (run_begins (b ∷ bs) s)
          ≡ returned r)
        × (r.chain_id
            ≡ last_chain_id bs (elim b.chain_id [ none ↦ s.current_chain_id | some m ↦ m ]))
  unfolding finish_balances last_chain_id
  finish_balances-last zero_usd bs b s reply now = (_, refl, run_begins-chain_id (b ∷ bs) s)
