-- ===== src/Alchemy/Initialized.antt =====
-- The strategies of the Alchemy provider after its start.
use onekey_balance_kit.Base.{
  ◌≡◌, ◌⊎◌, refl, Bool, true, false, Option, none, some, List, [], ◌∷◌, Text, truthy, any,
  if◌then◌else◌, get, set, get-set, Map, get-set_self, text_beq, text_beq_iff, Bool-cases,
  Option-cases, inl, inr, arith, ap, sym, ◌∙◌,
}
use onekey_balance_kit.Alchemy.{
  Strategy, AlchemyProviderFacade, create_facade, supported_chains, is_supported_chain,
  final_api_key, strategy_for, initialize_strategy, initialize_strategies, on_module_init,
  get_strategy, get_chain_name, get_api_key, is_testnet,
}
use onekey_balance_kit.Chains.Alchemy.{Network}
use onekey_balance_kit.Chains.{ChainName, value, ethereum}
use onekey_balance_kit.CacheKey.Portfolio.{value-injective}
use onekey_balance_kit.ProviderApi.{NetworkType, mainnet, testnet, text_or}

pub supports : (c : ChainName) → is_supported_chain c ≡ true
supports ethereum = ground arith
supports c = ground arith

module _ {N : Type 0} where
  pub get_chain_name_given :
      (network : NetworkType) (c : ChainName) (s : AlchemyProviderFacade N)
      → get_chain_name network (some c) s ≡ c
  unfolding get_chain_name
  get_chain_name_given network c s = rw (supports c) refl

-- The keys do not depend on the strategies.
module _ {N : Type 0} (networks : Network N) (config : Text → Option Text)
    (constructs : Strategy N → Bool) where
  get_api_key_same :
      (network : NetworkType) (c : ChainName) (s : AlchemyProviderFacade N) (m : Map (Strategy N))
      → get_api_key config network (some c) (record s { strategies = m })
        ≡ get_api_key config network (some c) s
  unfolding get_api_key
  get_api_key_same network c s m =
      rw
        (
          get_chain_name_given network c s,
          get_chain_name_given network c (record s { strategies = m }),
        )
        refl

  final_api_key_same :
      (c : ChainName) (s : AlchemyProviderFacade N) (m : Map (Strategy N))
      → final_api_key networks config constructs c (record s { strategies = m })
        ≡ final_api_key networks config constructs c s
  final_api_key_same c s m =
      ap (λ k. text_or (some k) s.global_api_key)
        (get_api_key_same (if is_testnet c then testnet else mainnet) c s m)

module _ {N : Type 0} (networks : Network N) (config : Text → Option Text)
    (constructs : Strategy N → Bool) where
  -- The strategy that a chain is given with a key, if any.
  abbrev pub made_with : ChainName → Text → Option (Strategy N)
  made_with chain key =
      if truthy key
      then elim (strategy_for networks chain key) [
        | none ↦ none
        | some strategy ↦ if constructs strategy then some strategy else none
      ]
      else none

  abbrev pub made_for : ChainName → AlchemyProviderFacade N → Option (Strategy N)
  made_for chain s = made_with chain (final_api_key networks config constructs chain s)

  abbrev Unmade : ChainName → AlchemyProviderFacade N → Type 0
  Unmade d s = (made_for d s ≡ none) × (initialize_strategy networks config constructs d s ≡ s)

  abbrev Made : ChainName → AlchemyProviderFacade N → Type 0
  Made d s =
      (strategy : Strategy N) × (made_for d s ≡ some strategy)
      × (initialize_strategy networks config constructs d s
          ≡ record s { strategies = set (value d) strategy s.strategies })

  initialize_strategy_cases : (d : ChainName) (s : AlchemyProviderFacade N) → Unmade d s ⊎ Made d s
  unfolding initialize_strategy
  initialize_strategy_cases d s =
      elim (Bool-cases (truthy (final_api_key networks config constructs d s))) [
        | inr no_key ↦ inl (rw no_key refl, rw (no_key, initialize_strategy) refl)
        | inl key ↦
            elim (Option-cases
              (strategy_for networks d (final_api_key networks config constructs d s))) [
                | inl no_network ↦
                    inl (rw (key, no_network) refl, rw (initialize_strategy, key, no_network) refl)
                | inr (strategy, network) ↦ elim (Bool-cases (constructs strategy)) [
                  | inl built ↦ inr (
                    strategy,
                    rw (key, network, built) refl,
                    rw (initialize_strategy, key, network, built) refl,
                  )
                  | inr failed ↦ inl (
                    rw (key, network, failed) refl,
                    rw (initialize_strategy, key, network, failed) refl,
                  )
                ]
              ]
      ]

  -- A round makes the same strategies possible.
  made_for-initialize_strategy :
      (c d : ChainName) (s : AlchemyProviderFacade N)
      → made_for c (initialize_strategy networks config constructs d s) ≡ made_for c s
  made_for-initialize_strategy c d s = elim (initialize_strategy_cases d s) [
    | inl (_, same) ↦ ap (made_for c) same
    | inr (strategy, _, same) ↦
        ap (made_for c) same
        ∙ ap (made_with c) (
            final_api_key_same networks config constructs c s (set (value d) strategy s.strategies))
  ]

  abbrev kept : ChainName → AlchemyProviderFacade N → Option (Strategy N)
  kept c s = get (value c) s.strategies

  -- The round of the chain itself, and the rounds of the others.
  own_round :
      (c : ChainName) (s : AlchemyProviderFacade N)
      → (kept c s ≡ none) ⊎ (kept c s ≡ made_for c s)
      → kept c (initialize_strategy networks config constructs c s) ≡ made_for c s
  own_round c s h = elim (initialize_strategy_cases c s) [
    | inl (unmade, same) ↦ elim h [
      | inl missing ↦ ap (kept c) same ∙ missing ∙ sym unmade
      | inr found ↦ ap (kept c) same ∙ found
    ]
    | inr (strategy, made, same) ↦
        ap (kept c) same ∙ get-set_self (value c) strategy s.strategies ∙ sym made
  ]

  other_round :
      (c d : ChainName) (s : AlchemyProviderFacade N)
      → text_beq (value d) (value c) ≡ false
      → kept c (initialize_strategy networks config constructs d s) ≡ kept c s
  other_round c d s other = elim (initialize_strategy_cases d s) [
    | inl (_, same) ↦ ap (kept c) same
    | inr (strategy, _, same) ↦
        ap (kept c) same ∙ get-set (value d) (value c) strategy s.strategies ∙ rw other refl
  ]

  round-settled :
      (c d : ChainName) (s : AlchemyProviderFacade N)
      → kept c s ≡ made_for c s
      → kept c (initialize_strategy networks config constructs d s) ≡ made_for c s
  round-settled c d s e = elim (Bool-cases (text_beq (value d) (value c))) [
    | inr other ↦ other_round c d s other ∙ e
    | inl same ↦
        let here : d ≡ c = value-injective d c ((text_beq_iff (value d) (value c)).0 same) in
        rw here (own_round c s (inr e))
  ]

  round-made :
      (c d : ChainName) (s : AlchemyProviderFacade N)
      → d ≡ c
      → kept c s ≡ none
      → kept c (initialize_strategy networks config constructs d s) ≡ made_for c s
  round-made c d s here e = rw here (own_round c s (inl e))

  rounds-settled :
      (chains : List ChainName) (c : ChainName) (s : AlchemyProviderFacade N)
      → kept c s ≡ made_for c s
      → kept c (initialize_strategies networks config constructs chains s) ≡ made_for c s
  unfolding initialize_strategies
  rounds-settled [] c s e = e
  rounds-settled (d ∷ chains) c s e =
      let t : AlchemyProviderFacade N = initialize_strategy networks config constructs d s in
      let same = made_for-initialize_strategy c d s in
      rounds-settled chains c t (round-settled c d s e ∙ sym same) ∙ same

  rounds-made :
      (chains : List ChainName) (c : ChainName) (s : AlchemyProviderFacade N)
      → any (λ d. text_beq (value d) (value c)) chains ≡ true
      → kept c s ≡ none
      → kept c (initialize_strategies networks config constructs chains s) ≡ made_for c s
  unfolding initialize_strategies
  rounds-made [] c s occurs e = absurd (ground (arith, occurs))
  rounds-made (d ∷ chains) c s occurs e =
      let t : AlchemyProviderFacade N = initialize_strategy networks config constructs d s in
      let same = made_for-initialize_strategy c d s in
      elim (Bool-cases (text_beq (value d) (value c))) [
        | inr other ↦
            rounds-made chains c t (rw other at occurs) (other_round c d s other ∙ e) ∙ same
        | inl found ↦
            let here : d ≡ c = value-injective d c ((text_beq_iff (value d) (value c)).0 found) in
            let made' = round-made c d s here e in
            rounds-settled chains c t (made' ∙ sym same) ∙ same
      ]

  -- After the start of the provider the strategy of a chain, for either network type, is the one of
  -- the chain with its API key, if the key is not empty and the strategy's constructor returns;
  -- otherwise the chain has no strategy.
  pub get_strategy-on_module_init :
      (network : NetworkType) (c : ChainName)
      → get_strategy network
          (some c)
          (on_module_init networks config constructs (create_facade config))
        ≡ made_for c (create_facade config)
  unfolding get_strategy get_chain_name on_module_init create_facade get
  get_strategy-on_module_init network c =
      rw (supports c) (rounds-made supported_chains c (create_facade config) (supports c) refl)
