-- ===== src/ProviderFactory/Instances.antt =====
-- The cached instances of providers/provider.factory.ts.
use onekey_balance_kit.Base.{
  ◌≡◌, refl, ◌∙◌, inl, inr, true, false, ◌&&◌, Option, some, [], Text, if◌then◌else◌, get, set,
  get-set, Map, arith, Bool-cases, Option-cases, text_beq, text_beq_iff, text_beq_refl, or_else,
  get-set_self,
}
use onekey_balance_kit.Cache.{returned}
use onekey_balance_kit.ProviderFactory.{
  Nest, Factory, found, inner, set_inner, get_provider, get_resolved, get_multi, get_single,
  instantiate, get_provider_class, is_multi_chain_provider, chain_supported_by_provider,
}

pub inner-set_inner {ℓ} :
    {V : Type ℓ} (k j : Text) (v : V) (m : Map (Map V)) (k' j' : Text)
    → inner k' j' (set_inner k j v m)
      ≡ (if text_beq k k' && text_beq j j' then some v else inner k' j' m)
unfolding get
inner-set_inner k j v m k' j' = ground (
  arith,
  get-set k k' (set j v (or_else (get k m) [])) m,
  get-set j j' v (or_else (get k m) []),
  text_beq_iff k k',
)

module _ {C I : Type 0} (nest : Nest C I) where
  -- What the caches of instances owe to the registry.
  pub record IsCoherent (s : Factory C I) : Type 0 where
    pub multi :
        (blockchain provider : Text) (c : C) (i : I)
        → get_provider_class blockchain provider s ≡ some c
        → is_multi_chain_provider nest c ≡ true
        → get provider s.multi_chain_providers ≡ some i
        → nest.make c ≡ returned (some i)
    pub single :
        (blockchain provider : Text) (c : C) (i : I)
        → get_provider_class blockchain provider s ≡ some c
        → inner blockchain provider s.instances ≡ some i
        → nest.make c ≡ returned (some i)

  -- Of the classes that are registered under one provider type, at most one serves several chains.
  pub record HasOneMulti (s : Factory C I) : Type 0 where
    pub same :
        (provider b b' : Text) (c c' : C)
        → get_provider_class b provider s ≡ some c
        → get_provider_class b' provider s ≡ some c'
        → is_multi_chain_provider nest c ≡ true
        → is_multi_chain_provider nest c' ≡ true
        → c ≡ c'

  abbrev pub IsProvided : Text → Text → Factory C I → I → Type 0
  IsProvided blockchain provider s i =
      (c : C) × (get_provider_class blockchain provider s ≡ some c)
      × (chain_supported_by_provider nest blockchain c ≡ true)
      × (nest.make c ≡ returned (some i))

  get_multi-made :
      (blockchain provider : Text) (c : C) (s : Factory C I) (i : I)
      → IsCoherent s
      → get_provider_class blockchain provider s ≡ some c
      → is_multi_chain_provider nest c ≡ true
      → (get_multi nest provider c s).0 ≡ found i
      → nest.make c ≡ returned (some i)
  unfolding get_multi instantiate
  get_multi-made blockchain provider c s i coherent h m e =
      ground (arith, coherent.multi blockchain provider c i h m)

  get_single-made :
      (blockchain provider : Text) (c : C) (s : Factory C I) (i : I)
      → IsCoherent s
      → get_provider_class blockchain provider s ≡ some c
      → (get_single nest blockchain provider c s).0 ≡ found i
      → nest.make c ≡ returned (some i)
  unfolding get_single instantiate
  get_single-made blockchain provider c s i coherent h e =
      ground (arith, coherent.single blockchain provider c i h)

  pub get_resolved-class :
      (blockchain provider : Text) (s : Factory C I) (i : I)
      → (get_resolved nest blockchain provider s).0 ≡ found i
      → (c : C) × (get_provider_class blockchain provider s ≡ some c)
        × (chain_supported_by_provider nest blockchain c ≡ true)
  unfolding get_resolved
  get_resolved-class blockchain provider s i e =
      elim (Option-cases (get_provider_class blockchain provider s)) [
        | inl absent ↦ absurd (ground arith)
        | inr (c, h) ↦ (c, h, ground arith)
      ]

  pub get_resolved-IsProvided :
      (blockchain provider : Text) (s : Factory C I) (i : I)
      → IsCoherent s
      → (get_resolved nest blockchain provider s).0 ≡ found i
      → IsProvided blockchain provider s i
  unfolding get_resolved
  get_resolved-IsProvided blockchain provider s i coherent e =
      let (c, h, supported) = get_resolved-class blockchain provider s i e in
      (
        c,
        h,
        supported,
        ground (
          arith,
          get_multi-made blockchain provider c s i coherent h,
          get_single-made blockchain provider c s i coherent h,
        ),
      )

  -- A call is that of its branch, and keeps the registry.
  get_multi-again :
      (provider : Text) (c : C) (s : Factory C I) (i : I)
      → (get_multi nest provider c s).0 ≡ found i
      → let s' = (get_multi nest provider c s).1 in
        (get_multi nest provider c s' ≡ (found i, s')) × (s'.providers ≡ s.providers)
  unfolding get_multi instantiate
  get_multi-again provider c s i e = ground (arith, get-set_self provider i s.multi_chain_providers)

  get_single-again :
      (blockchain provider : Text) (c : C) (s : Factory C I) (i : I)
      → (get_single nest blockchain provider c s).0 ≡ found i
      → let s' = (get_single nest blockchain provider c s).1 in
        (get_single nest blockchain provider c s' ≡ (found i, s')) × (s'.providers ≡ s.providers)
  unfolding get_single instantiate
  get_single-again blockchain provider c s i e = ground (
    arith,
    inner-set_inner blockchain provider i s.instances blockchain provider,
    text_beq_refl blockchain,
    text_beq_refl provider,
  )

  pub resolved-multi :
      (blockchain provider : Text) (c : C) (s : Factory C I)
      → get_provider_class blockchain provider s ≡ some c
      → chain_supported_by_provider nest blockchain c ≡ true
      → is_multi_chain_provider nest c ≡ true
      → get_resolved nest blockchain provider s ≡ get_multi nest provider c s
  unfolding get_resolved
  resolved-multi blockchain provider c s h supported m = ground arith

  pub resolved-single :
      (blockchain provider : Text) (c : C) (s : Factory C I)
      → get_provider_class blockchain provider s ≡ some c
      → chain_supported_by_provider nest blockchain c ≡ true
      → is_multi_chain_provider nest c ≡ false
      → get_resolved nest blockchain provider s ≡ get_single nest blockchain provider c s
  unfolding get_resolved
  resolved-single blockchain provider c s h supported m = ground arith

  class-keeps :
      (blockchain provider : Text) (s s' : Factory C I)
      → s'.providers ≡ s.providers
      → get_provider_class blockchain provider s' ≡ get_provider_class blockchain provider s
  unfolding get_provider_class
  class-keeps blockchain provider s s' e = rw e refl

  get_resolved-again :
      (blockchain provider : Text) (s : Factory C I) (i : I)
      → (get_resolved nest blockchain provider s).0 ≡ found i
      → let s' = (get_resolved nest blockchain provider s).1 in
        get_resolved nest blockchain provider s' ≡ (found i, s')
  get_resolved-again blockchain provider s i e =
      let (c, h, supported) = get_resolved-class blockchain provider s i e in
      elim (Bool-cases (is_multi_chain_provider nest c)) [
        | inl m ↦
            let r = resolved-multi blockchain provider c s h supported m in
            let (again, kept) = get_multi-again provider c s i (rw r at e) in
            rw r (
              resolved-multi blockchain provider c _ (class-keeps blockchain provider s _ kept ∙ h)
                supported m
              ∙ again)
        | inr m ↦
            let r = resolved-single blockchain provider c s h supported m in
            let (again, kept) = get_single-again blockchain provider c s i (rw r at e) in
            rw r (
              resolved-single blockchain provider c _ (class-keeps blockchain provider s _ kept ∙ h)
                supported m
              ∙ again)
      ]

  -- A provider that was given is given again for the same names, without a change: one instance
  -- serves all calls.
  pub get_provider-again :
      (input : Text) (provider : Option Text) (s : Factory C I) (i : I)
      → (get_provider nest input provider s).0 ≡ found i
      → let s' = (get_provider nest input provider s).1 in
        get_provider nest input provider s' ≡ (found i, s')
  unfolding get_provider
  get_provider-again input provider s i e = get_resolved-again _ _ s i e
