-- ===== src/ChainServices/Marked.antt =====
-- Which chains the start of chains/services/core/chain-service.factory.ts makes available.
use onekey_balance_kit.Base.{
  ◌≡◌, refl, ap, sym, subst, ◌∙◌, Bool, false, Bool-cases, then_get, ◌&&◌, ◌||◌, Option, none, some,
  List, [], ◌∷◌, Text, to_lower, to_lower_idem, text_beq, any, Map, get, set, has, get-set, set-All,
  All, arith, Option-cases, inl, inr,
}
use onekey_balance_kit.ChainServices.Discovery.{
  ChainMeta, Wrapper, set_names, meta_names, names_of, discover_one, discover_all,
  discover_chain_services, register_all, start_factory,
}
use onekey_balance_kit.ChainServices.{
  ChainServiceFactory, normalize_chain_input, register_chain_service_type, is_chain_available,
}

has-set :
    {V : Type 0} (k name : Text) (v : V) (m : Map V)
    → has name (set k v m) ≡ (text_beq k name || has name m)
has-set k name v m = grind (arith, get-set k name v m)

-- A name is one of the chains, in small letters.
abbrev pub is_named : Text → List Text → Bool
is_named name = any (λ n. text_beq (to_lower n) name)

has-set_names :
    {C : Type 0} (c : C) (name : Text) (names : List Text) (m : Map C)
    → has name (set_names c names m) ≡ (is_named name names || has name m)
has-set_names c name [] m = refl
has-set_names c name (n ∷ names) m =
    ground (arith, has-set_names c name names (set (to_lower n) c m), has-set (to_lower n) name c m)

-- All keys are in small letters.
abbrev IsLower : {C : Type 0} → Map C → Type 0
IsLower = All (λ e. to_lower e.0 ≡ e.0)

set_names-IsLower :
    {C : Type 0} (c : C) (names : List Text) (m : Map C) → IsLower m → IsLower (set_names c names m)
set_names-IsLower c [] m h = h
set_names-IsLower c (n ∷ names) m h =
    set_names-IsLower c names (set (to_lower n) c m)
      (set-All (λ e. to_lower e.0 ≡ e.0) (to_lower n) c m (to_lower_idem n) h)

has-register_all :
    {C V : Type 0} (name : Text) (m : Map C) (s : ChainServiceFactory C V)
    → IsLower m
    → let r = register_all m s in
      (has name r.chain_service_types ≡ (has name m || has name s.chain_service_types))
      × (r.chain_services ≡ s.chain_services)
unfolding register_chain_service_type get
has-register_all name [] s h = (refl, refl)
has-register_all name ((k, c) ∷ m) s h =
    let types = s.chain_service_types in
    let (there, same) = has-register_all name m (register_chain_service_type k c s) h.1 in
    let put : has name (set (to_lower k) c types) ≡ (text_beq k name || has name types) =
      has-set (to_lower k) name c types ∙ ap (λ x. text_beq x name || has name types) h.0 in
    (ground (arith, there, put), same)

abbrev pub has_chain : Text → Option ChainMeta → Bool
has_chain name none = false
has_chain name (some m) = text_beq (to_lower m.mainnet) name || is_named name m.testnets

named_meta : (name : Text) (m : Option ChainMeta) → is_named name (meta_names m) ≡ has_chain name m
named_meta name none = refl
named_meta name (some m) = refl

module _ {C : Type 0} (meta : C → Option ChainMeta) where
  -- A provider has an instance, of a class that is marked with a chain of that name.
  abbrev pub marks : Text → Wrapper C → Bool
  marks name w = w.has_instance && has_chain name (then_get w.metatype meta)

  named_marks : (name : Text) (w : Wrapper C) → is_named name (names_of meta w) ≡ marks name w
  named_marks name w = elim (Bool-cases w.has_instance) [
    | inl there ↦ simp (there, named_meta name (then_get w.metatype meta)) refl
    | inr missing ↦ simp missing refl
  ]

  discover_one_lem :
      (w : Wrapper C) (m : Map C) (c : C)
      → w.metatype ≡ some c
      → discover_one meta w m ≡ set_names c (names_of meta w) m
  discover_one_lem w m c there =
      ap (λ o. elim o as (λ _. Map C) [ none ↦ m | some d ↦ set_names d (names_of meta w) m ]) there

  has-discover_one :
      (name : Text) (w : Wrapper C) (m : Map C)
      → has name (discover_one meta w m) ≡ (marks name w || has name m)
  has-discover_one name w m = elim (Option-cases w.metatype) [
    | inl missing ↦ ground (arith, missing)
    | inr (c, there) ↦
        ap (has name) (discover_one_lem w m c there)
        ∙ has-set_names c name (names_of meta w) m
        ∙ ap (λ b. b || has name m) (named_marks name w)
  ]

  discover_one-IsLower : (w : Wrapper C) (m : Map C) → IsLower m → IsLower (discover_one meta w m)
  discover_one-IsLower w m h = elim (Option-cases w.metatype) [
    | inl missing ↦ rw missing h
    | inr (c, there) ↦
        subst IsLower (sym (discover_one_lem w m c there))
          (set_names-IsLower c (names_of meta w) m h)
  ]

  -- What the scan of the providers finds, and that its keys are in small letters.
  discover_all_lem :
      (name : Text) (ws : List (Wrapper C)) (m : Map C)
      → IsLower m
      → (has name (discover_all meta ws m) ≡ (any (λ w. marks name w) ws || has name m))
        × IsLower (discover_all meta ws m)
  discover_all_lem name [] m h = (refl, h)
  discover_all_lem name (w ∷ ws) m h =
      let (found, lower) =
        discover_all_lem name ws (discover_one meta w m) (discover_one-IsLower w m h) in
      (ground (arith, found, has-discover_one name w m), lower)

  -- After the start a chain is available, by its name or symbol, exactly if it was before or an
  -- instantiated class is marked with it, as its main net or one of its test nets, whatever the case
  -- of the letters.
  pub is_chain_available-start_factory :
      {V : Type 0} (input : Text) (ws : List (Wrapper C)) (s : ChainServiceFactory C V)
      → is_chain_available input (start_factory meta ws s)
        ≡ (any (λ w. marks (normalize_chain_input input) w) ws || is_chain_available input s)
  unfolding is_chain_available start_factory discover_chain_services get
  is_chain_available-start_factory input ws s =
      let name = normalize_chain_input input in
      let (found, lower) = discover_all_lem name ws [] tt in
      let (types, services) = has-register_all name (discover_all meta ws []) s lower in
      let same : has name (register_all (discover_all meta ws []) s).chain_services
          ≡ has name s.chain_services =
        ap (has name) services in
      ground (arith, found, types, same)
