-- ===== src/ProviderFactory/Runs.antt =====
-- Any calls of `getProvider` of providers/provider.factory.ts, one after the other.
use onekey_balance_kit.Base.{◌≡◌, refl, Option, List, [], ◌∷◌, Text, get, arith}
use onekey_balance_kit.ProviderFactory.{
  Nest, Factory, found, normalize_blockchain_type, get_provider, get_resolved, get_multi,
  get_single, instantiate, get_provider_class, chosen_provider, register_providers,
  register_provider, empty_factory,
}
use onekey_balance_kit.ProviderFactory.Instances.{
  IsCoherent, HasOneMulti, IsProvided, get_resolved-IsProvided,
}
use onekey_balance_kit.ProviderFactory.Coherence.{get_resolved-IsCoherent}

module _ {C I : Type 0} (nest : Nest C I) where
  get_resolved-providers :
      (blockchain provider : Text) (s : Factory C I)
      → (get_resolved nest blockchain provider s).1.providers ≡ s.providers
  unfolding get_resolved get_multi get_single instantiate
  get_resolved-providers blockchain provider s = ground arith

  -- Any calls of `getProvider`, one after the other.
  unfoldable pub ask_all : List (Text × Option Text) → Factory C I → Factory C I
  ask_all [] s = s
  ask_all ((input, provider) ∷ rest) s = ask_all rest (get_provider nest input provider s).1

  providers-HasOneMulti :
      (s s' : Factory C I) → s'.providers ≡ s.providers → HasOneMulti nest s → HasOneMulti nest s'
  unfolding get_provider_class
  providers-HasOneMulti s s' e one = record {
    same = λ p b b' c c' h h' m m'. one.same p b b' c c' (rw e at h) (rw e at h') m m';
  }

  ask_all-IsCoherent :
      (asked : List (Text × Option Text)) (s : Factory C I)
      → HasOneMulti nest s
      → IsCoherent nest s
      → IsCoherent nest (ask_all asked s)
  unfolding ask_all get_provider
  ask_all-IsCoherent [] s one v = v
  ask_all-IsCoherent ((input, provider) ∷ rest) s one v =
      let blockchain = normalize_blockchain_type input in
      let p = chosen_provider nest blockchain provider in
      ask_all-IsCoherent rest _
        (providers-HasOneMulti s _ (get_resolved-providers blockchain p s) one)
        (get_resolved-IsCoherent nest blockchain p s one v)

  registered-instances :
      (regs : List (Text × Text × C)) (s : Factory C I)
      → let s' = register_providers regs s in
        (s'.instances ≡ s.instances) × (s'.multi_chain_providers ≡ s.multi_chain_providers)
  unfolding register_providers register_provider
  registered-instances [] s = (refl, refl)
  registered-instances ((b, p, c) ∷ rest) s = registered-instances rest (register_provider b p c s)

  fresh-IsCoherent :
      (regs : List (Text × Text × C)) → IsCoherent nest (register_providers regs empty_factory)
  unfolding get
  fresh-IsCoherent regs =
      let (none_single, none_multi) = registered-instances regs empty_factory in
      record {
        multi = λ b p c i h m e. absurd (ground (arith, none_multi));
        single = λ b p c i h e. absurd (ground (arith, none_single));
      }

  -- If under each provider type at most one registered class serves several chains, then after any
  -- calls a provider that is given is the instance of the class that is registered for the resolved
  -- chain and provider type, and that class supports the chain.
  pub get_provider-IsProvided :
      (regs : List (Text × Text × C)) (asked : List (Text × Option Text)) (input : Text)
      (provider : Option Text) (i : I)
      → HasOneMulti nest (register_providers regs empty_factory)
      → let s = ask_all asked (register_providers regs empty_factory) in
        (get_provider nest input provider s).0 ≡ found i
        → let blockchain = normalize_blockchain_type input in
          IsProvided nest blockchain (chosen_provider nest blockchain provider) s i
  unfolding get_provider
  get_provider-IsProvided regs asked input provider i one e =
      get_resolved-IsProvided nest _ _ _ i (ask_all-IsCoherent asked _ one (fresh-IsCoherent regs))
        e
