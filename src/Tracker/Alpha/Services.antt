-- ===== src/Tracker/Alpha/Services.antt =====
-- The handlers that only read: tracker/internal/services/v1alpha/service_dependency.go,
-- service_module.go and the `List` of service_source.go, over a client of the graph store.
pub mod Answers
pub mod Stored
use depscloud.Tracker.Alpha.Schema.{module_type, Depends, Env, Manages, Module, Source}
use depscloud.Tracker.Alpha.Schema.{as_depends, as_manages, as_module, as_source, decode}
use depscloud.Tracker.Alpha.Schema.{depends_type, key_for_module, key_for_source, manages_type}
use depscloud.Tracker.Alpha.Schema.{source_type}
use depscloud.Base.{◌>>=◌, List, Result, [], err, list_eq, module_not_found, nat_eq, ok}
use depscloud.Base.{option_eq, panic, ◌∷◌}
use depscloud.Base.Bytes.{Bytes}
use depscloud.Tracker.Alpha.Types.{GraphItemPair, key_eq}
use depscloud.Tracker.Alpha.Client.{GraphStoreClient}
use depscloud.Codec.Base64.{pair}
use depscloud.Base.Int32.{ℤ}

-- `tracker.DependencyRequest`
pub record DependencyRequest : Type 0 where
  pub language : Bytes
  pub organization : Bytes
  pub module_name : Bytes
  pub name : Bytes

-- `tracker.Dependency`
pub record Dependency : Type 0 where
  pub module_ : Module
  pub depends : Depends

-- `tracker.ManagedSource`
pub record ManagedSource : Type 0 where
  pub source : Source
  pub manages : Manages

-- `tracker.ManagedModule`
pub record ManagedModule : Type 0 where
  pub module_ : Module
  pub manages : Manages

-- `tracker.ListSourceResponse` and `tracker.ListModuleResponse`
pub record ListResponse (A : Type 0) : Type 0 where
  pub page : ℤ
  pub count : ℤ
  pub items : List A

-- `if err != nil { return nil, api.ErrModuleNotFound }`
abbrev pub or_not_found : {A : Type 0} → Result A → Result A
or_not_found (ok a) = ok a
or_not_found (err e) = err module_not_found
or_not_found panic = panic

-- A loop that fills a slice and may panic.
unfoldable pub each : {A B : Type 0} → (A → Result B) → List A → Result (List B)
each f [] = ok []
each f (x ∷ xs) = do y ← f x; ys ← each f xs; ok (y ∷ ys)

module _ (env : Env) where
  -- `keyForDependencyRequest`
  unfoldable pub key_for_dependency_request : DependencyRequest → Bytes
  key_for_dependency_request req = key_for_module env (record {
    language = req.language;
    organization = req.organization;
    module_name = req.module_name;
    name = [];
  })

  abbrev pub dependency_of : GraphItemPair → Result Dependency
  dependency_of pair = do
    a ← as_module (decode env pair.node).0
    b ← as_depends (decode env pair.edge).0
    ok (record { module_ = a; depends = b })

  abbrev pub managed_source_of : GraphItemPair → Result ManagedSource
  managed_source_of pair = do
    a ← as_source (decode env pair.node).0
    b ← as_manages (decode env pair.edge).0
    ok (record { source = a; manages = b })

  abbrev pub managed_module_of : GraphItemPair → Result ManagedModule
  managed_module_of pair = do
    a ← as_module (decode env pair.node).0
    b ← as_manages (decode env pair.edge).0
    ok (record { module_ = a; manages = b })

  module _ {S : Type 0} (client : GraphStoreClient S) where
    -- `dependencyService.ListDependents`
    unfoldable pub list_dependents : DependencyRequest → S → Result (List Dependency)
    unfolding each
    list_dependents req s = do
      pairs ← or_not_found (
          client.downstream
            (record {
              keys = key_for_dependency_request req ∷ [];
              edge_types = depends_type ∷ [];
              node_types = module_type ∷ [];
            })
            s)
      each dependency_of pairs

    -- `dependencyService.ListDependencies`
    unfoldable pub list_dependencies : DependencyRequest → S → Result (List Dependency)
    unfolding each
    list_dependencies req s = do
      pairs ← or_not_found (
          client.upstream
            (record {
              keys = key_for_dependency_request req ∷ [];
              edge_types = depends_type ∷ [];
              node_types = module_type ∷ [];
            })
            s)
      each dependency_of pairs

    -- `moduleService.ListSources`
    unfoldable pub list_sources : Module → S → Result (List ManagedSource)
    unfolding each
    list_sources req s = do
      pairs ← or_not_found (
          client.downstream
            (record {
              keys = key_for_module env req ∷ [];
              edge_types = manages_type ∷ [];
              node_types = source_type ∷ [];
            })
            s)
      each managed_source_of pairs

    -- `moduleService.ListManaged`
    unfoldable pub list_managed : Source → S → Result (List ManagedModule)
    unfolding each
    list_managed req s = do
      pairs ← or_not_found (
          client.upstream
            (record {
              keys = key_for_source env req ∷ [];
              edge_types = manages_type ∷ [];
              node_types = module_type ∷ [];
            })
            s)
      each managed_module_of pairs

    -- `moduleService.List`, of a page and a count.
    unfoldable pub list_modules : ℤ → ℤ → S → Result (ListResponse Module)
    unfolding each
    list_modules page count s = do
      items ← client.list_items (record { page = page; count = count; item_type = module_type }) s
      modules ← each (λ item. as_module (decode env item).0) items
      ok (record { page = page; count = count; items = modules })

    -- `sourceService.List`
    unfoldable pub list_all_sources : ℤ → ℤ → S → Result (ListResponse Source)
    unfolding each
    list_all_sources page count s = do
      items ← client.list_items (record { page = page; count = count; item_type = source_type }) s
      sources ← each (λ item. as_source (decode env item).0) items
      ok (record { page = page; count = count; items = sources })
