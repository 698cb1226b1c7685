-- ===== src/ChainServices/Discovery.antt =====
-- chains/services/core/discovery.service.ts, chains/decorators/chain.decorator.ts and the start of
-- chains/services/core/chain-service.factory.ts: the classes that `@Chain` marks are registered under
-- their chains. The providers of NestJS and the reflector are arguments.
use onekey_balance_kit.Base.{
  Bool, then_get, Option, none, some, List, [], ◌∷◌, Text, to_lower, Map, set, if◌then◌else◌,
}
use onekey_balance_kit.ChainServices.{names, ChainServiceFactory, register_chain_service_type}

pub record ChainMeta : Type 0 where
  pub mainnet : Text
  pub testnets : List Text

abbrev pub set_each : {C : Type 0} → C → List Text → Map C → Map C
set_each c [] m = m
set_each c (name ∷ rest) m = set_each c rest (set name c m)

-- `Chain`: the class of each of its chains, in the map of all marked classes.
unfoldable pub mark_chain : {C : Type 0} → ChainMeta → C → Map C → Map C
mark_chain meta c m = set_each c (meta.mainnet ∷ meta.testnets) m

unfoldable pub get_registered_chain_names : {C : Type 0} → Map C → List Text
get_registered_chain_names = names

-- A provider of NestJS: whether it has an instance, and its class.
pub record Wrapper (C : Type 0) : Type 0 where
  pub has_instance : Bool
  pub metatype : Option C

abbrev pub set_names : {C : Type 0} → C → List Text → Map C → Map C
set_names c [] m = m
set_names c (name ∷ rest) m = set_names c rest (set (to_lower name) c m)

abbrev pub register_all : {C V : Type 0} → Map C → ChainServiceFactory C V → ChainServiceFactory C V
register_all [] s = s
register_all ((name, c) ∷ m) s = register_all m (register_chain_service_type name c s)

abbrev pub meta_names : Option ChainMeta → List Text
meta_names none = []
meta_names (some m) = m.mainnet ∷ m.testnets

module _ {C : Type 0} (meta : C → Option ChainMeta) where
  -- The chains of a provider, if its class is marked.
  abbrev pub names_of : Wrapper C → List Text
  names_of w = if w.has_instance then meta_names (then_get w.metatype meta) else []

  abbrev pub discover_one : Wrapper C → Map C → Map C
  discover_one w m = elim w.metatype [ none ↦ m | some c ↦ set_names c (names_of w) m ]

  abbrev pub discover_all : List (Wrapper C) → Map C → Map C
  discover_all [] m = m
  discover_all (w ∷ ws) m = discover_all ws (discover_one w m)

  unfoldable pub discover_chain_services : List (Wrapper C) → Map C
  discover_chain_services ws = discover_all ws []

  -- `onModuleInit`.
  unfoldable pub start_factory :
      {V : Type 0} → List (Wrapper C) → ChainServiceFactory C V → ChainServiceFactory C V
  unfolding discover_chain_services
  start_factory ws s = register_all (discover_chain_services ws) s
