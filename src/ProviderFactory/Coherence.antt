-- ===== src/ProviderFactory/Coherence.antt =====
-- Which class the cached instances of providers/provider.factory.ts are of.
use onekey_balance_kit.Base.{
  ◌≡◌, refl, sym, ◌∙◌, ◌⊎◌, inl, inr, true, Option, none, some, Text, get, set, get-set, arith,
  Bool-cases, Option-cases, text_beq, text_beq_iff, subst,
}
use onekey_balance_kit.Cache.{Reply, returned, threw}
use onekey_balance_kit.ProviderFactory.{
  Nest, Factory, Outcome, found, failed, nest_error, not_instantiated, inner, set_inner,
  get_resolved, get_multi, get_single, instantiate, get_provider_class, is_multi_chain_provider,
  chain_supported_by_provider,
}
use onekey_balance_kit.ProviderFactory.Instances.{
  inner-set_inner, IsCoherent, HasOneMulti, resolved-multi, resolved-single,
}

module _ {C I : Type 0} (nest : Nest C I) where
  -- The state after an instance was asked for: the old one, or it stores an instance of the class.
  instantiate_state :
      (c : C) (store : I → Factory C I) (s : Factory C I)
      → let r = instantiate nest c store s in
        (r.1 ≡ s) ⊎ ((i : I) × (nest.make c ≡ returned (some i)) × (r.1 ≡ store i))
  unfolding instantiate
  instantiate_state c store s = made (nest.make c) refl
    where
      made :
          (m : Reply (Option I))
          → nest.make c ≡ m
          → let r : Outcome I × Factory C I = elim m [
            | threw ↦ (failed nest_error, s)
            | returned none ↦ (failed not_instantiated, s)
            | returned (some i) ↦ (found i, store i)
          ] in
            (r.1 ≡ s) ⊎ ((i : I) × (nest.make c ≡ returned (some i)) × (r.1 ≡ store i))
      made threw e = inl refl
      made (returned none) e = inl refl
      made (returned (some i)) e = inr (i, e, refl)

  multi_stored-IsCoherent :
      (blockchain provider : Text) (c : C) (i : I) (s : Factory C I)
      → HasOneMulti nest s
      → IsCoherent nest s
      → get_provider_class blockchain provider s ≡ some c
      → is_multi_chain_provider nest c ≡ true
      → nest.make c ≡ returned (some i)
      → IsCoherent nest
          (record s { multi_chain_providers = set provider i s.multi_chain_providers })
  unfolding get_provider_class
  multi_stored-IsCoherent blockchain provider c i s one v h m made = record {
    multi = λ b p c' i' h' m' e. elim (Bool-cases (text_beq provider p)) [
      | inl same ↦
          let here : p ≡ provider = sym ((text_beq_iff provider p).0 same) in
          let c_same : c' ≡ c = one.same p b blockchain c' c h' (rw here h) m' m in
          let i_same : some i ≡ some i' =
            sym (get-set provider p i s.multi_chain_providers ∙ rw same refl) ∙ e in
          rw (c_same, made) (ground arith)
      | inr other ↦
          v.multi b p c' i' h' m'
            (sym (get-set provider p i s.multi_chain_providers ∙ rw other refl) ∙ e)
    ];
    single = λ b p c' i' h' e. v.single b p c' i' h' e;
  }

  single_stored-IsCoherent :
      (blockchain provider : Text) (c : C) (i : I) (s : Factory C I)
      → IsCoherent nest s
      → get_provider_class blockchain provider s ≡ some c
      → nest.make c ≡ returned (some i)
      → IsCoherent nest (record s { instances = set_inner blockchain provider i s.instances })
  unfolding get_provider_class
  single_stored-IsCoherent blockchain provider c i s v h made = record {
    multi = λ b p c' i' h' m' e. v.multi b p c' i' h' m' e;
    single = λ b p c' i' h' e. ground (
      arith,
      inner-set_inner blockchain provider i s.instances b p,
      text_beq_iff blockchain b,
      text_beq_iff provider p,
      v.single b p c' i' h',
    );
  }

  get_multi-IsCoherent :
      (blockchain provider : Text) (c : C) (s : Factory C I)
      → HasOneMulti nest s
      → IsCoherent nest s
      → get_provider_class blockchain provider s ≡ some c
      → is_multi_chain_provider nest c ≡ true
      → IsCoherent nest (get_multi nest provider c s).1
  unfolding get_multi
  get_multi-IsCoherent blockchain provider c s one v h m =
      elim (Option-cases (get provider s.multi_chain_providers)) [
        | inr (i, e) ↦ rw (e, get_multi) v
        | inl absent ↦
            rw (absent, get_multi)
              (elim (instantiate_state c _ s) [
                | inl same ↦ subst (IsCoherent nest) (sym same) v
                | inr (i, made, stored) ↦
                    subst (IsCoherent nest) (sym stored)
                      (multi_stored-IsCoherent blockchain provider c i s one v h m made)
              ])
      ]

  get_single-IsCoherent :
      (blockchain provider : Text) (c : C) (s : Factory C I)
      → IsCoherent nest s
      → get_provider_class blockchain provider s ≡ some c
      → IsCoherent nest (get_single nest blockchain provider c s).1
  unfolding get_single
  get_single-IsCoherent blockchain provider c s v h =
      elim (Option-cases (inner blockchain provider s.instances)) [
        | inr (i, e) ↦ rw (e, get_single) v
        | inl absent ↦
            rw (absent, get_single)
              (elim (instantiate_state c _ s) [
                | inl same ↦ subst (IsCoherent nest) (sym same) v
                | inr (i, made, stored) ↦
                    subst (IsCoherent nest) (sym stored)
                      (single_stored-IsCoherent blockchain provider c i s v h made)
              ])
      ]

  pub get_resolved-IsCoherent :
      (blockchain provider : Text) (s : Factory C I)
      → HasOneMulti nest s
      → IsCoherent nest s
      → IsCoherent nest (get_resolved nest blockchain provider s).1
  unfolding get_resolved
  get_resolved-IsCoherent blockchain provider s one v =
      elim (Option-cases (get_provider_class blockchain provider s)) [
        | inl absent ↦ rw (absent, get_resolved) v
        | inr (c, h) ↦ elim (Bool-cases (chain_supported_by_provider nest blockchain c)) [
          | inr unsupported ↦ rw (h, get_resolved, unsupported) v
          | inl supported ↦ elim (Bool-cases (is_multi_chain_provider nest c)) [
            | inl m ↦
                rw (resolved-multi nest blockchain provider c s h supported m)
                  (get_multi-IsCoherent blockchain provider c s one v h m)
            | inr m ↦
                rw (resolved-single nest blockchain provider c s h supported m)
                  (get_single-IsCoherent blockchain provider c s v h)
          ]
        ]
      ]
