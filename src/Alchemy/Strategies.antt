-- ===== src/Alchemy/Strategies.antt =====
-- providers/strategies/balance-strategy.factory.ts: the strategies that are kept by chain and provider.
-- A QuickNode client is its URL, and a missing URL has none; `builds` tells whether the clients of a
-- strategy can be constructed.
use onekey_balance_kit.Adapters.{get_adapter_key}
use onekey_balance_kit.Alchemy.{Strategy, evm_alchemy, solana_alchemy, evm_quicknode, is_devnet}
use onekey_balance_kit.Base.{
  ◌≡◌, refl, Bool, Option, none, some, List, [], ◌∷◌, Text, truthy, if◌then◌else◌, Map, get, set,
  get-set, get-set_self, text_beq, text_beq_iff, Bool-cases, Option-cases, inl, inr, arith, ap, ◌∙◌,
}
use onekey_balance_kit.Cache.{Reply, returned, threw, Reply-cases}
use onekey_balance_kit.Chains.{ChainName, is_evm_chain}
use onekey_balance_kit.Providers.{ProviderType, alchemy, quicknode}

abbrev pub get_strategy_key : ChainName → ProviderType → Text
get_strategy_key chain provider = get_adapter_key chain (some provider)

abbrev pub client_of : Option Text → Option Text
client_of none = none
client_of (some url) = if truthy url then some url else none

-- The operations that may add a strategy.
pub data Operation (N : Type 0) : Type 0 where
  make_alchemy : (chain : ChainName) (key : Text) (network : Option N) → Operation N
  make_quicknode :
      (chain : ChainName) (mainnet_url : Text) (testnet_url : Option Text) → Operation N

module _ {N : Type 0} where
  -- The strategy under a key, or the one made for it, which is kept unless its making throws.
  unfoldable pub cached :
      Text → Reply (Strategy N) → Map (Strategy N) → Reply (Strategy N) × Map (Strategy N)
  cached key made m = elim (get key m) [
    | some strategy ↦ (returned strategy, m)
    | none ↦ elim made [
      | threw ↦ (threw, m)
      | returned strategy ↦ (returned strategy, set key strategy m)
    ]
  ]

  abbrev pub built : (Strategy N → Bool) → Strategy N → Reply (Strategy N)
  built builds strategy = if builds strategy then returned strategy else threw

  abbrev pub made_alchemy : (Strategy N → Bool) → ChainName → Text → Option N → Reply (Strategy N)
  made_alchemy builds chain key network =
      if is_evm_chain chain
      then elim network [ none ↦ threw | some n ↦ built builds (evm_alchemy key n) ]
      else built builds (solana_alchemy key (is_devnet chain))

  unfoldable pub create_alchemy_strategy :
      (Strategy N → Bool)
      → ChainName
      → Text
      → Option N
      → Map (Strategy N)
      → Reply (Strategy N) × Map (Strategy N)
  unfolding cached
  create_alchemy_strategy builds chain key network m =
      cached (get_strategy_key chain alchemy) (made_alchemy builds chain key network) m

  abbrev pub made_quicknode :
      (Strategy N → Bool) → ChainName → Text → Option Text → Reply (Strategy N)
  made_quicknode builds chain mainnet_url testnet_url =
      if is_evm_chain chain
      then built builds (evm_quicknode (client_of (some mainnet_url)) (client_of testnet_url))
      else threw

  unfoldable pub create_quicknode_strategy :
      (Strategy N → Bool)
      → ChainName
      → Text
      → Option Text
      → Map (Strategy N)
      → Reply (Strategy N) × Map (Strategy N)
  unfolding cached
  create_quicknode_strategy builds chain mainnet_url testnet_url m =
      cached (get_strategy_key chain quicknode)
        (made_quicknode builds chain mainnet_url testnet_url) m

  unfoldable pub get_kept_strategy :
      ChainName → ProviderType → Map (Strategy N) → Option (Strategy N)
  get_kept_strategy chain provider m = get (get_strategy_key chain provider) m

  unfoldable pub set_strategy :
      ChainName → ProviderType → Strategy N → Map (Strategy N) → Map (Strategy N)
  set_strategy chain provider strategy m = set (get_strategy_key chain provider) strategy m

  unfoldable pub clear_strategies : Map (Strategy N) → Map (Strategy N)
  clear_strategies m = []

  -- The strategies after operations.
  unfoldable pub operate : (Strategy N → Bool) → Operation N → Map (Strategy N) → Map (Strategy N)
  unfolding create_alchemy_strategy create_quicknode_strategy
  operate builds (make_alchemy chain key network) m =
      (create_alchemy_strategy builds chain key network m).1
  operate builds (make_quicknode chain a b) m = (create_quicknode_strategy builds chain a b m).1

  unfoldable pub operate_all :
      (Strategy N → Bool) → List (Operation N) → Map (Strategy N) → Map (Strategy N)
  operate_all builds [] m = m
  operate_all builds (o ∷ os) m = operate_all builds os (operate builds o m)

  -- A strategy that is kept stays.
  cached-keeps :
      (key j : Text) (made : Reply (Strategy N)) (m : Map (Strategy N)) (strategy : Strategy N)
      → get j m ≡ some strategy
      → get j (cached key made m).1 ≡ some strategy
  unfolding cached
  cached-keeps key j threw m strategy e = ground (arith, e)
  cached-keeps key j (returned new) m strategy e = elim (Option-cases (get key m)) [
    | inr (old, found) ↦ rw (found, cached) e
    | inl missing ↦
        rw (missing, cached, get-set key j new m)
          (elim (Bool-cases (text_beq key j)) [
            | inr other ↦ rw other e
            | inl same ↦
                let here : key ≡ j = (text_beq_iff key j).0 same in
                absurd (ground (arith, e, missing, here))
          ])
  ]

  operate-keeps :
      (builds : Strategy N → Bool) (o : Operation N) (j : Text) (m : Map (Strategy N))
      (strategy : Strategy N)
      → get j m ≡ some strategy
      → get j (operate builds o m) ≡ some strategy
  unfolding operate create_alchemy_strategy create_quicknode_strategy
  operate-keeps builds (make_alchemy chain key network) j m strategy e =
      cached-keeps (get_strategy_key chain alchemy) j (made_alchemy builds chain key network) m
        strategy e
  operate-keeps builds (make_quicknode chain a b) j m strategy e =
      cached-keeps (get_strategy_key chain quicknode) j (made_quicknode builds chain a b) m strategy
        e

  operate_all-keeps :
      (builds : Strategy N → Bool) (os : List (Operation N)) (j : Text) (m : Map (Strategy N))
      (strategy : Strategy N)
      → get j m ≡ some strategy
      → get j (operate_all builds os m) ≡ some strategy
  unfolding operate_all
  operate_all-keeps builds [] j m strategy e = e
  operate_all-keeps builds (o ∷ os) j m strategy e =
      operate_all-keeps builds os j (operate builds o m) strategy
        (operate-keeps builds o j m strategy e)

  cached-kept :
      (key : Text) (made : Reply (Strategy N)) (m : Map (Strategy N)) (strategy : Strategy N)
      → (cached key made m).0 ≡ returned strategy
      → get key (cached key made m).1 ≡ some strategy
  unfolding cached
  cached-kept key made m strategy e = elim (Option-cases (get key m)) [
    | inr (old, found) ↦
        let same : returned old ≡ returned strategy = rw (cached, found) at e in
        let is : old ≡ strategy = ground arith in rw (cached, found) (found ∙ ap some is)
    | inl missing ↦ elim (Reply-cases made) [
      | inl threw_ ↦ absurd (ground (arith, e, missing, threw_))
      | inr (new, made_) ↦
          let same : returned new ≡ returned strategy = rw (cached, missing, made_) at e in
          let is : new ≡ strategy = ground arith in
          rw (cached, missing, made_) (get-set_self key new m ∙ ap some is)
    ]
  ]

  cached-found :
      (key : Text) (made : Reply (Strategy N)) (m : Map (Strategy N)) (strategy : Strategy N)
      → get key m ≡ some strategy
      → cached key made m ≡ (returned strategy, m)
  unfolding cached
  cached-found key made m strategy e = rw (cached, e) refl

  -- Once an Alchemy strategy has been created for a chain, a further creation for the chain returns it,
  -- whatever was created in between, and whatever API key and network it is asked for; it
  -- changes nothing.
  pub create_alchemy_strategy-first :
      (builds : Strategy N → Bool) (chain : ChainName) (key key' : Text)
      (network network' : Option N) (m : Map (Strategy N)) (strategy : Strategy N)
      (between : List (Operation N))
      → (create_alchemy_strategy builds chain key network m).0 ≡ returned strategy
      → let after =
          operate_all builds between (create_alchemy_strategy builds chain key network m).1 in
        create_alchemy_strategy builds chain key' network' after ≡ (returned strategy, after)
  unfolding create_alchemy_strategy
  create_alchemy_strategy-first builds chain key key' network network' m strategy between e =
      let k = get_strategy_key chain alchemy in
      let made : Reply (Strategy N) = made_alchemy builds chain key network in
      let kept = cached-kept k made m strategy e in
      cached-found k (made_alchemy builds chain key' network')
        (operate_all builds between (cached k made m).1) strategy
        (operate_all-keeps builds between k (cached k made m).1 strategy kept)
