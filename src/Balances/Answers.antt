-- ===== src/Balances/Answers.antt =====
-- What `getPortfolio` of balances/services/balance.service.ts answers and emits.
use onekey_balance_kit.Base.{
  is_some, keep_if, map, ap, subst, true, List, Bool, false, ℕ, ◌≡◌, refl, ◌⊎◌, inl, inr, Option,
  none, some, [], ◌∷◌, ◌++◌, Text, true, arith, Bool-cases, Option-cases,
}
use onekey_balance_kit.Balances.{
  BalanceService, ChainApi, Answer, answered, refused, rethrown, blockchain_invalid_address,
  balance_chain_not_supported, balance_fetch_failed, BalanceData, nothing, legacy, modern,
  LegacyToken, modern_token, response_from, complete_response, convert_legacy_balance_to_modern,
  get_tokens_from_balance_data, PortfolioError, normalize_chain_input, fetch_balances,
  chain_service_for, fetch_portfolio, get_portfolio_of_chain, get_portfolio,
}
use onekey_balance_kit.Cache.{Reply, Reply-cases, returned, threw, Manager}
use onekey_balance_kit.CacheMongo.{get_portfolio_data}
use onekey_balance_kit.ChainServices.{ChainService, ChainServiceFactory}
use onekey_balance_kit.Chains.{ChainName, chain_info_map}
use onekey_balance_kit.Db.{Models}
use onekey_balance_kit.Notification.{Emitted, portfolio_update}
use onekey_balance_kit.Portfolio.{BalanceResponse, NativeBalance, Token}
use onekey_balance_kit.Providers.{ProviderType}

pub Answer-cases :
    {A : Type 0} (a : Answer A)
    → ((e : PortfolioError) × (a ≡ refused e)) ⊎ ((r : A) × (a ≡ answered r))
Answer-cases (answered r) = inr (r, refl)
Answer-cases (refused e) = inl (e, refl)

abbrev pub is_token : LegacyToken → Bool
is_token t = is_some t.token_address

abbrev pub legacy_amount : LegacyToken → Option Text × Text
legacy_amount t = (t.token_address, t.balance)

abbrev pub amount : {P : Type 0} → Token P → Option Text × Text
amount t = (t.mint, t.balance)

-- What a response keeps of the balances that a chain service gives. Of a list of legacy balances the
-- tokens keep their addresses and balances; there are no NFTs.
abbrev pub Keeps : {P : Type 0} → BalanceData P → BalanceResponse P → Type 0
Keeps nothing r = false ≡ true
Keeps (legacy xs) r =
    (map amount r.tokens ≡ map legacy_amount (keep_if is_token xs)) × (r.nfts ≡ [])
Keeps {P = P} (modern d) r =
    ((n : NativeBalance P) → d.native_balance ≡ some n → r.native_balance ≡ n)
    × ((xs : List (Token P)) → d.fungibles ≡ some xs → r.tokens ≡ xs)
    × ((xs : List P) → d.nfts ≡ some xs → r.nfts ≡ xs)

modern_tokens :
    (P : Type 0) (xs : List LegacyToken)
    → map amount (map (modern_token {P = P}) xs) ≡ map legacy_amount xs
modern_tokens P [] = refl
modern_tokens P (x ∷ xs) = ap (λ rest. legacy_amount x ∷ rest) (modern_tokens P xs)

abbrev response_in :
    {P : Type 0} → BalanceResponse P → Answer (BalanceResponse P) → BalanceResponse P
response_in r (answered q) = q
response_in r (refused e) = r

response_from-Keeps :
    {P : Type 0} (symbol : Text) (now : ℕ) (b : BalanceData P) (r : BalanceResponse P)
    → response_from symbol now b ≡ answered r
    → Keeps b r
unfolding response_from complete_response convert_legacy_balance_to_modern
    get_tokens_from_balance_data
response_from-Keeps symbol now nothing r e = absurd (ground (arith, e))
response_from-Keeps symbol now (legacy xs) r e =
    subst (Keeps (legacy xs)) (ap (response_in r) e) (modern_tokens _ (keep_if is_token xs), refl)
response_from-Keeps symbol now (modern d) r e =
    subst (Keeps (modern d)) (ap (response_in r) e)
      (λ n h. ground (arith, h), λ xs h. ground (arith, h), λ xs h. ground (arith, h))

module _ {C V S D P : Type 0} (make : C → Reply (Option V)) (api : ChainApi V P)
    (cache : Manager S (BalanceResponse P)) (default_ttl : ℕ) (db : Models P D) where
  -- A chain service takes the address, is asked for its balances, and gives those of a response.
  pub record IsGiven (service : ChainService V) (chain : ChainName) (address : Text)
      (provider : Option ProviderType) (r : BalanceResponse P) : Type 0 where
    pub valid : api.is_valid_address service address ≡ true
    pub queryable : api.is_balance_queryable service ≡ true
    pub balances : BalanceData P
    pub gave :
        api.get_balances service address (chain_info_map chain).id provider ≡ returned balances
    pub kept : Keeps balances r

  -- Why a chain service gives no balances.
  pub data HasRefused (service : ChainService V) (chain : ChainName) (address : Text)
      (provider : Option ProviderType) (e : PortfolioError) : Type 0 where
    invalid :
        api.is_valid_address service address ≡ false
        → e ≡ blockchain_invalid_address
        → HasRefused service chain address provider e
    not_queryable :
        api.is_balance_queryable service ≡ false
        → e ≡ balance_chain_not_supported
        → HasRefused service chain address provider e
    balances_failed :
        api.get_balances service address (chain_info_map chain).id provider ≡ threw
        → e ≡ rethrown
        → HasRefused service chain address provider e
    no_balances :
        api.get_balances service address (chain_info_map chain).id provider ≡ returned nothing
        → e ≡ balance_fetch_failed
        → HasRefused service chain address provider e

  -- Where an answer comes from, and what is emitted for it: nothing for a refusal and for an answer that
  -- was stored, one event for an answer that a chain service gave for a valid address. A refusal has
  -- its reason: the reading failed, or nothing is stored and there is no service, or it refuses.
  pub data IsAnswered (chain : ChainName) (address : Text) (provider : Option ProviderType)
      (now : ℕ) (stored : Reply (Option (BalanceResponse P))) (factory : ChainServiceFactory C V)
      (emitted : Emitted (BalanceResponse P)) (answer : Answer (BalanceResponse P))
      (s' : BalanceService C V S P) : Type 0 where
    from_store :
        (r : BalanceResponse P)
        → stored ≡ returned (some r)
        → answer ≡ answered r
        → s'.factory ≡ factory
        → s'.emitted ≡ emitted
        → IsAnswered chain address provider now stored factory emitted answer s'
    from_chain :
        (r : BalanceResponse P) (service : ChainService V)
        → stored ≡ returned none
        → answer ≡ answered r
        → (chain_service_for make api cache default_ttl db chain provider factory).0 ≡ some service
        → IsGiven service chain address provider r
        → s'.emitted
          ≡ emitted ++ portfolio_update chain (chain_info_map chain).id address r provider none ∷ []
        → IsAnswered chain address provider now stored factory emitted answer s'
    store_failed :
        stored ≡ threw
        → answer ≡ refused rethrown
        → s'.emitted ≡ emitted
        → IsAnswered chain address provider now stored factory emitted answer s'
    no_service :
        stored ≡ returned none
        → (chain_service_for make api cache default_ttl db chain provider factory).0 ≡ none
        → answer ≡ refused rethrown
        → s'.emitted ≡ emitted
        → IsAnswered chain address provider now stored factory emitted answer s'
    chain_refused :
        (e : PortfolioError) (service : ChainService V)
        → stored ≡ returned none
        → (chain_service_for make api cache default_ttl db chain provider factory).0 ≡ some service
        → HasRefused service chain address provider e
        → answer ≡ refused e
        → s'.emitted ≡ emitted
        → IsAnswered chain address provider now stored factory emitted answer s'

  fetch_balances-HasRefused :
      (service : ChainService V) (chain : ChainName) (address : Text)
      (provider : Option ProviderType) (now : ℕ) (e : PortfolioError)
      → fetch_balances make api cache default_ttl db service chain address provider now ≡ refused e
      → HasRefused service chain address provider e
  unfolding fetch_balances response_from
  fetch_balances-HasRefused service chain address provider now e h =
      elim (Bool-cases (api.is_valid_address service address)) [
        | inr wrong ↦ invalid wrong (ground (arith, wrong, h))
        | inl valid ↦ elim (Bool-cases (api.is_balance_queryable service)) [
          | inr never ↦ not_queryable never (ground (arith, valid, never, h))
          | inl queryable ↦
              elim (Reply-cases
                (api.get_balances service address (chain_info_map chain).id provider)) [
                  | inl failed ↦
                      balances_failed failed (ground (arith, valid, queryable, failed, h))
                  | inr (nothing, gave) ↦
                      no_balances gave (ground (arith, valid, queryable, gave, h))
                  | inr (legacy xs, gave) ↦ absurd (ground (arith, valid, queryable, gave, h))
                  | inr (modern d, gave) ↦ absurd (ground (arith, valid, queryable, gave, h))
                ]
        ]
      ]

  fetch_balances-IsGiven :
      (service : ChainService V) (chain : ChainName) (address : Text)
      (provider : Option ProviderType) (now : ℕ) (r : BalanceResponse P)
      → fetch_balances make api cache default_ttl db service chain address provider now ≡ answered r
      → IsGiven service chain address provider r
  unfolding fetch_balances
  fetch_balances-IsGiven service chain address provider now r h =
      elim (Bool-cases (api.is_valid_address service address)) [
        | inr wrong ↦ absurd (ground (arith, wrong, h))
        | inl valid ↦ elim (Bool-cases (api.is_balance_queryable service)) [
          | inr never ↦ absurd (ground (arith, valid, never, h))
          | inl queryable ↦
              elim (Reply-cases
                (api.get_balances service address (chain_info_map chain).id provider)) [
                  | inl failed ↦ absurd (ground (arith, valid, queryable, failed, h))
                  | inr (b, gave) ↦ record {
                    valid = valid;
                    queryable = queryable;
                    balances = b;
                    gave = gave;
                    kept =
                        response_from-Keeps (api.get_chain_symbol service) now b r
                          (ground (arith, valid, queryable, gave, h));
                  }
                ]
        ]
      ]

  fetch_portfolio-IsAnswered :
      (chain : ChainName) (address : Text) (provider : Option ProviderType) (now : ℕ)
      (s : BalanceService C V S P) (stored : Reply (Option (BalanceResponse P)))
      → stored ≡ returned none
      → let r = fetch_portfolio make api cache default_ttl db chain address provider now s in
        IsAnswered chain address provider now stored s.factory s.emitted r.0 r.1
  unfolding fetch_portfolio
  fetch_portfolio-IsAnswered chain address provider now s stored absent =
      elim (Option-cases
        (chain_service_for make api cache default_ttl db chain provider s.factory).0) [
          | inl missing ↦ rw (missing, fetch_portfolio) (no_service absent missing refl refl)
          | inr (service, found) ↦
              let fetched =
                fetch_balances make api cache default_ttl db service chain address provider now in
              elim (Answer-cases fetched) [
                | inl (e, failed) ↦
                    rw (found, failed, fetch_portfolio)
                      (chain_refused e service absent found
                        (fetch_balances-HasRefused service chain address provider now e failed) refl
                        refl)
                | inr (r, gave) ↦
                    rw (found, gave, fetch_portfolio)
                      (from_chain r service absent refl found
                        (fetch_balances-IsGiven service chain address provider now r gave) refl)
              ]
        ]

  pub get_portfolio-IsAnswered :
      (input address : Text) (chain : ChainName) (provider : Option ProviderType) (now : ℕ) (d : D)
      (s : BalanceService C V S P)
      → normalize_chain_input input ≡ some chain
      → let r = get_portfolio make api cache default_ttl db input address provider now d s in
        IsAnswered chain address provider now
          (get_portfolio_data cache default_ttl db chain
            (chain_info_map chain).id
            address
            provider
            none
            now
            d
            s.cached).0
          s.factory
          s.emitted
          r.0
          r.1
  unfolding get_portfolio get_portfolio_of_chain
  get_portfolio-IsAnswered input address chain provider now d s known =
      rw (known, get_portfolio)
        (let (read, cached) =
            get_portfolio_data cache default_ttl db chain (chain_info_map chain).id address provider
              none now d s.cached in
          elim (Reply-cases read) [
            | inl failed ↦ rw (failed, get_portfolio_of_chain) (store_failed refl refl refl)
            | inr (some r, hit) ↦
                rw (hit, get_portfolio_of_chain) (from_store r refl refl refl refl)
            | inr (none, miss) ↦
                rw (miss, get_portfolio_of_chain)
                  (fetch_portfolio-IsAnswered chain address provider now
                    (record s { cached = cached }) (returned none) refl)
          ])
