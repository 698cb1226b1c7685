-- ===== src/Adapters/Coherent.antt =====
-- The keys of the adapters and the strategies, and the adapter that a chain has.
use onekey_balance_kit.Base.{
  ◌≡◌, refl, if◌then◌else◌, ap, sym, ◌∙◌, Option, none, some, List, [], ◌∷◌, Text, split,
  split-single, split-part, get, get-set, text_beq, text_beq_iff, Bool-cases, inl, inr, arith,
  Option-cases,
}
use onekey_balance_kit.Adapters.{
  Adapter, BalanceAdapterFactory, get_adapter_key, adapter_kind, for_provider,
}
use onekey_balance_kit.CacheKey.Portfolio.{value-injective, provider_text-injective}
use onekey_balance_kit.CacheKey.RoundTrip.{value-Lacks, provider_value-Lacks}
use onekey_balance_kit.CacheKey.{delimiter}
use onekey_balance_kit.Chains.{ChainName, value}
use onekey_balance_kit.Providers.{ProviderType, provider_value}

abbrev parts : ChainName → Option ProviderType → List Text
parts chain none = value chain ∷ []
parts chain (some p) = value chain ∷ provider_value p ∷ []

split-get_adapter_key :
    (chain : ChainName) (provider : Option ProviderType)
    → split delimiter (get_adapter_key chain provider) ≡ parts chain provider
split-get_adapter_key chain none = split-single delimiter (value chain) (value-Lacks chain)
split-get_adapter_key chain (some p) =
    rw
      (
        split-part delimiter (value chain) (provider_value p) (value-Lacks chain),
        split-single delimiter (provider_value p) (provider_value-Lacks p),
      )
      refl

parts-injective :
    (c d : ChainName) (p q : Option ProviderType) → parts c p ≡ parts d q → (c ≡ d) × (p ≡ q)
parts-injective c d none none e = (value-injective c d (ground arith), refl)
parts-injective c d none (some q) e = absurd (ground arith)
parts-injective c d (some p) none e = absurd (ground arith)
parts-injective c d (some p) (some q) e =
    (value-injective c d (ground arith), provider_text-injective (some p) (some q) (ground arith))

-- No two pairs of a chain and a provider share a key.
pub get_adapter_key-injective :
    (c d : ChainName) (p q : Option ProviderType)
    → get_adapter_key c p ≡ get_adapter_key d q
    → (c ≡ d) × (p ≡ q)
get_adapter_key-injective c d p q e =
    parts-injective c d p q
      (sym (split-get_adapter_key c p) ∙ ap (split delimiter) e ∙ split-get_adapter_key d q)

-- Every adapter is of the class of the pair under whose key it stands.
abbrev pub IsCoherent : BalanceAdapterFactory → Type 0
IsCoherent f =
    (c : ChainName) (p : Option ProviderType) (a : Adapter)
    → get (get_adapter_key c p) f.adapters ≡ some a
    → a.kind ≡ adapter_kind c p

stored-kind :
    (chain c : ChainName) (provider p : Option ProviderType) (made a : Adapter)
    (f : BalanceAdapterFactory)
    → made.kind ≡ adapter_kind chain provider
    → IsCoherent f
    → (if text_beq (get_adapter_key chain provider) (get_adapter_key c p)
        then some made
        else get (get_adapter_key c p) f.adapters)
      ≡ some a
    → a.kind ≡ adapter_kind c p
stored-kind chain c provider p made a f of_kind h e =
    elim (Bool-cases (text_beq (get_adapter_key chain provider) (get_adapter_key c p))) [
      | inr other ↦ h c p a (rw other at e)
      | inl same ↦
          let (of_chain, of_provider) =
            get_adapter_key-injective chain c provider p
              ((text_beq_iff (get_adapter_key chain provider) (get_adapter_key c p)).0 same) in
          let stored : some made ≡ some a = rw same at e in
          let is : made ≡ a = ground arith in rw (← is, ← of_chain, ← of_provider) of_kind
    ]

for_provider-IsCoherent :
    (chain : ChainName) (provider : Option ProviderType) (f : BalanceAdapterFactory)
    → IsCoherent f
    → let r = for_provider chain provider f in
      (r.0.kind ≡ adapter_kind chain provider) × IsCoherent r.1
unfolding for_provider
for_provider-IsCoherent chain provider f h =
    elim (Option-cases (get (get_adapter_key chain provider) f.adapters)) [
      | inr (a, cached) ↦ rw (cached, for_provider) (h chain provider a cached, h)
      | inl missing ↦
          let made : Adapter = record { kind = adapter_kind chain provider; serial = f.created } in
          rw (missing, for_provider)
            (
              refl,
              λ c p a e. stored-kind chain c provider p made a f refl h (
                  sym
                    (get-set (get_adapter_key chain provider) (get_adapter_key c p) made f.adapters)
                  ∙ e),
            )
    ]

-- The adapters of any sequence of requests.
unfoldable pub ask_adapters :
    List (ChainName × Option ProviderType) → BalanceAdapterFactory → BalanceAdapterFactory
ask_adapters [] f = f
ask_adapters ((chain, provider) ∷ asked) f = ask_adapters asked (for_provider chain provider f).1

ask_adapters-IsCoherent :
    (asked : List (ChainName × Option ProviderType)) (f : BalanceAdapterFactory)
    → IsCoherent f
    → IsCoherent (ask_adapters asked f)
unfolding ask_adapters
ask_adapters-IsCoherent [] f h = h
ask_adapters-IsCoherent ((chain, provider) ∷ asked) f h =
    ask_adapters-IsCoherent asked (for_provider chain provider f).1
      (for_provider-IsCoherent chain provider f h).1

abbrev pub empty_adapters : BalanceAdapterFactory
empty_adapters = record { adapters = []; created = 0 }

-- Whatever was asked for before, the adapter for a chain and a provider is of the class that the two
-- call for: the QuickNode adapter for QuickNode on an EVM chain, the EVM adapter for any other
-- provider there, and the Solana adapter on the Solana chains.
pub for_provider-kind :
    (asked : List (ChainName × Option ProviderType)) (chain : ChainName)
    (provider : Option ProviderType)
    → (for_provider chain provider (ask_adapters asked empty_adapters)).0.kind
      ≡ adapter_kind chain provider
unfolding get
for_provider-kind asked chain provider =
    (for_provider-IsCoherent chain provider (ask_adapters asked empty_adapters)
      (ask_adapters-IsCoherent asked empty_adapters (λ c p a e. cc))).0
