-- ===== src/Alchemy/Answers.antt =====
-- The balances that the Alchemy provider gives after its start.
use onekey_balance_kit.Adapters.Coherent.{ask_adapters, empty_adapters, for_provider-kind}
use onekey_balance_kit.Adapters.Completed.{IsComplete, to_balances_response-IsComplete}
use onekey_balance_kit.Adapters.{
  AdapterKind, evm_adapter, solana_adapter, quicknode_adapter, quicknode_balances_response,
  BalanceAdapterFactory, RawBalances, evm_raw, solana_raw, quicknode_raw, adapter_kind, for_chain,
  to_balances_response, evm_balances_response, solana_balances_response,
}
use onekey_balance_kit.Alchemy.Calls.{Remote, get_balances}
use onekey_balance_kit.Alchemy.Initialized.{
  get_strategy-on_module_init, get_chain_name_given, made_for, made_with,
}
use onekey_balance_kit.Alchemy.{
  Strategy, evm_alchemy, solana_alchemy, evm_quicknode, AlchemyProviderFacade, create_facade,
  final_api_key, strategy_for, on_module_init, get_strategy, get_chain_name, is_devnet,
}
use onekey_balance_kit.Base.{
  ◌≡◌, refl, Bool, Option, none, some, List, Text, truthy, arith, sym, ◌∙◌, Bool-cases,
  Option-cases, inl, inr,
}
use onekey_balance_kit.Cache.{returned}
use onekey_balance_kit.Chains.Alchemy.{Network, get_alchemy_network_for_chain}
use onekey_balance_kit.Chains.{ChainName, is_evm_chain}
use onekey_balance_kit.ProviderApi.{NetworkType, BalancesResponse}
use onekey_balance_kit.Providers.{ProviderType}

-- The class of the adapter that reads an answer.
abbrev pub reader : RawBalances → AdapterKind
reader (evm_raw _) = evm_adapter
reader (solana_raw _) = solana_adapter
reader (quicknode_raw _) = quicknode_adapter

abbrev pub kind_of : {N : Type 0} → Strategy N → AdapterKind
kind_of (evm_alchemy _ _) = evm_adapter
kind_of (solana_alchemy _ _) = solana_adapter
kind_of (evm_quicknode _ _) = quicknode_adapter

-- Each strategy answers in the form of its own provider.
abbrev pub AnswersInForm : {N X : Type 0} → Remote N X → Type 0
AnswersInForm {N} remote =
    (strategy : Strategy N) (address : Text) (network : NetworkType) (raw : RawBalances)
    → remote.get_raw_balances strategy address network ≡ returned raw
    → reader raw ≡ kind_of strategy

-- An adapter of the right class does not throw.
pub to_balances_response_lem :
    (raw : RawBalances)
    → (b : BalancesResponse) × (to_balances_response (reader raw) raw ≡ returned b)
unfolding to_balances_response
to_balances_response_lem (evm_raw r) = (evm_balances_response r, refl)
to_balances_response_lem (solana_raw r) = (solana_balances_response r, refl)
to_balances_response_lem (quicknode_raw r) = (quicknode_balances_response r, refl)

-- A call whose strategy answers and whose adapter reads the answer.
get_balances_read :
    {N X : Type 0} (remote : Remote N X) (s : AlchemyProviderFacade N) (f : BalanceAdapterFactory)
    (c : ChainName) (network : NetworkType) (address : Text) (strategy : Strategy N)
    (raw : RawBalances) (b : BalancesResponse)
    → get_chain_name network (some c) s ≡ c
    → get_strategy network (some c) s ≡ some strategy
    → remote.get_raw_balances strategy address network ≡ returned raw
    → (for_chain c f).0.kind ≡ reader raw
    → to_balances_response (reader raw) raw ≡ returned b
    → (get_balances remote address network (some c) s f).0 ≡ returned b
unfolding get_balances
get_balances_read remote s f c network address strategy raw b given has answers reads gives =
    rw (get_balances, given, has, answers, given, reads) gives

module _ {N X : Type 0} (networks : Network N) (config : Text → Option Text)
    (constructs : Strategy N → Bool) (remote : Remote N X) where
  strategy_for-kind :
      (c : ChainName) (key : Text) (strategy : Strategy N)
      → strategy_for networks c key ≡ some strategy
      → kind_of strategy ≡ adapter_kind c none
  strategy_for-kind c key strategy e = elim (Bool-cases (is_evm_chain c)) [
    | inr solana_ ↦
        let made : some (solana_alchemy key (is_devnet c)) ≡ some strategy = rw solana_ at e in
        let is : solana_alchemy key (is_devnet c) ≡ strategy = ground arith in
        rw (solana_, ← is) refl
    | inl evm ↦ elim (Option-cases (get_alchemy_network_for_chain networks c)) [
      | inl unknown ↦ absurd (let f = rw (evm, unknown) at e in ground (arith, f))
      | inr (n, known) ↦
          let made : some (evm_alchemy key n) ≡ some strategy = rw (evm, known) at e in
          let is : evm_alchemy key n ≡ strategy = ground arith in rw (evm, ← is) refl
    ]
  ]

  made_with-kind :
      (c : ChainName) (key : Text) (strategy : Strategy N)
      → made_with networks config constructs c key ≡ some strategy
      → kind_of strategy ≡ adapter_kind c none
  made_with-kind c key strategy e = elim (Bool-cases (truthy key)) [
    | inr no_key ↦ absurd (ground (arith, e, no_key))
    | inl has_key ↦ elim (Option-cases (strategy_for networks c key)) [
      | inl none_ ↦ absurd (let f = rw (has_key, none_) at e in ground (arith, f))
      | inr (made, is) ↦ elim (Bool-cases (constructs made)) [
        | inr failed ↦ absurd (let f = rw (has_key, is, failed) at e in ground (arith, f))
        | inl built ↦
            let same : some made ≡ some strategy = rw (has_key, is, built) at e in
            strategy_for-kind c key strategy (is ∙ same)
      ]
    ]
  ]

  abbrev started : AlchemyProviderFacade N
  started = on_module_init networks config constructs (create_facade config)

  adapter_of :
      (asked : List (ChainName × Option ProviderType)) (c : ChainName)
      → (for_chain c (ask_adapters asked empty_adapters)).0.kind ≡ adapter_kind c none
  unfolding for_chain
  adapter_of asked c = for_provider-kind asked c none

  -- After the start of the provider, when the strategy of a chain returns an answer, in the form of the
  -- strategy's provider, the balances are returned too: the adapter that the factory has for the
  -- chain, whatever adapters were asked for before, can read the answer. They are
  -- those of the answer, with what is missing filled in.
  pub get_balances_in_form :
      AnswersInForm remote
      → (asked : List (ChainName × Option ProviderType)) (c : ChainName) (network : NetworkType)
        (address : Text) (strategy : Strategy N) (raw : RawBalances)
      → get_strategy network (some c) started ≡ some strategy
      → remote.get_raw_balances strategy address network ≡ returned raw
      → (b : BalancesResponse) × ((get_balances remote address network
            (some c)
            started
            (ask_adapters asked empty_adapters)).0
          ≡ returned b)
        × IsComplete raw b
  get_balances_in_form in_form asked c network address strategy raw has answers =
      let made : made_for networks config constructs c (create_facade config) ≡ some strategy =
        sym (get_strategy-on_module_init networks config constructs network c) ∙ has in
      let of_chain : kind_of strategy ≡ adapter_kind c none =
        made_with-kind c (final_api_key networks config constructs c (create_facade config))
          strategy made in
      let reads : (for_chain c (ask_adapters asked empty_adapters)).0.kind ≡ reader raw =
        adapter_of asked c ∙ sym of_chain ∙ sym (in_form strategy address network raw answers) in
      let (b, gives) = to_balances_response_lem raw in
      let f : BalanceAdapterFactory = ask_adapters asked empty_adapters in
      (
        b,
        get_balances_read remote started f c network address strategy raw b
            (get_chain_name_given network c started) has answers reads gives,
        to_balances_response-IsComplete raw b (reader raw) gives,
      )
