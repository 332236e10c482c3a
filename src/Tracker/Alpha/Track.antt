-- ===== src/Tracker/Alpha/Track.antt =====
-- `sourceService.Track`, `getCurrent` and `getProposed` of
-- tracker/internal/services/v1alpha/service_source.go. The source of the request is not nil. The
-- maps are in the order of insertion, where Go ranges over them in any order.
pub mod Current
pub mod Plan
pub mod Outcome
use depscloud.Tracker.Alpha.Schema.{source, encode, Env, Source, depends, depends_type}
use depscloud.Tracker.Alpha.Schema.{key_for_source, manages, manages_type, module_, module_type}
use depscloud.Tracker.Alpha.Schema.{readable_key}
use depscloud.Base.{◌>>=◌, Bool, List, Result, [], err, if◌then◌else◌, list_eq, nat_eq, ok}
use depscloud.Base.{option_eq, panic, partial_deletion, partial_insertion, true, ◌==◌, ◌||◌, ◌∷◌}
use depscloud.Base.Bytes.{Bytes, bytes}
use depscloud.Base.Dict.{Dict, insert, lookup, values}
use depscloud.Tracker.Alpha.Types.{GraphItem, GraphItemPair, key_eq, FindRequest}
use depscloud.Tracker.Alpha.Client.{GraphStoreClient}
use depscloud.Tracker.Alpha.Services.{or_not_found}
use depscloud.Base.Options.{is_some}

-- `schema.ManifestDependency`
pub record ManifestDependency : Type 0 where
  pub organization : Bytes
  pub module_name : Bytes
  pub name : Bytes
  pub version_constraint : Bytes
  pub scopes : List Bytes

-- `deps.DependencyManagementFile`
pub record ManagementFile : Type 0 where
  pub language : Bytes
  pub system : Bytes
  pub version : Bytes
  pub organization : Bytes
  pub module_name : Bytes
  pub name : Bytes
  pub source_url : Bytes
  pub dependencies : List ManifestDependency

-- `tracker.SourceRequest`
pub record SourceRequest : Type 0 where
  pub source : Source
  pub management_files : List ManagementFile

abbrev pub Index : Type 0
Index = Dict Bytes GraphItem

-- `idx[readableKey(item)] = item`
unfoldable pub index : GraphItem → Index → Index
index item idx = insert (readable_key item) item idx

-- An edge with its keys filled in.
abbrev pub linked : GraphItem → GraphItem → GraphItem → GraphItem
linked edge source_item target = record edge { k1 = source_item.k1; k2 = target.k1 }

-- The request for the modules that edges of one type lead to from a key.
abbrev pub modules_by : Bytes → Bytes → FindRequest
modules_by edge_type key = record {
  keys = key ∷ [];
  edge_types = edge_type ∷ [];
  node_types = module_type ∷ [];
}

module _ (env : Env) where
  -- The `depends` edges of this source, or of no source, with their modules.
  unfoldable pub owned : Bytes → List GraphItemPair → Index → Index
  unfolding index
  owned source_key [] idx = idx
  owned source_key (depended ∷ pairs) idx =
      let k3 = depended.edge.k3 in
      owned source_key pairs (
        if k3 == [] || k3 == source_key then index depended.edge (index depended.node idx) else idx)

  -- The item of a manages edge.
  abbrev pub manages_item : ManagementFile → Result GraphItem
  manages_item file =
      encode env (
        manages (record { language = file.language; system = file.system; version = file.version }))

  -- The loop over the dependencies of a management file.
  unfoldable pub add_dependencies :
      Source → GraphItem → GraphItem → Bytes → List ManifestDependency → Index → Result Index
  unfolding index
  add_dependencies src src_item managed lang [] idx = ok idx
  add_dependencies src src_item managed lang (dependency ∷ deps) idx = do
    depended ← encode env (
        module_ (record {
          language = lang;
          organization = dependency.organization;
          module_name = dependency.module_name;
          name = dependency.name;
        }))
    edge ← encode env (
        depends (record {
          language = lang;
          version_constraint = dependency.version_constraint;
          scopes = dependency.scopes;
          ref = src.ref;
        }))
    add_dependencies src src_item managed lang deps
        (index (record (linked edge managed depended) { k3 = src_item.k1 }) (index depended idx))

  -- `if sourceURL := managementFile.GetSourceUrl(); sourceURL != ""`
  unfoldable pub add_discovered : ManagementFile → GraphItem → Index → Result Index
  unfolding index
  add_discovered file managed idx = if file.source_url == [] then ok idx else (do
    discovered ←
        encode env (source (record { url = file.source_url; kind = bytes "repository"; ref = [] }))
    edge ← manages_item file
    ok (index (linked edge discovered managed) (index discovered idx)))

  -- The loop over the management files.
  unfoldable pub add_files : Source → GraphItem → List ManagementFile → Index → Result Index
  unfolding index
  add_files src src_item [] idx = ok idx
  add_files src src_item (file ∷ files) idx = do
    managed ← encode env (
        module_ (record {
          language = file.language;
          organization = file.organization;
          module_name = file.module_name;
          name = file.name;
        }))
    edge ← manages_item file
    found ← add_discovered file managed (index (linked edge src_item managed) (index managed idx))
    idx' ← add_dependencies src src_item managed file.language file.dependencies found
    add_files src src_item files idx'

  unfoldable pub get_proposed : SourceRequest → Result Index
  unfolding index
  get_proposed req = do
    src_item ← encode env (source req.source)
    add_files req.source src_item req.management_files (index src_item [])

  module _ {S : Type 0} (client : GraphStoreClient S) where
    -- The loop over the modules that the source manages.
    unfoldable pub collect : S → Bytes → List GraphItemPair → Index → Result Index
    unfolding index
    collect s source_key [] idx = ok idx
    collect s source_key (managed ∷ pairs) idx = do
      found ← client.upstream (modules_by depends_type managed.node.k1) s
      collect s source_key pairs
          (owned source_key found (index managed.edge (index managed.node idx)))

    unfoldable pub get_current : Source → S → Result Index
    unfolding index
    get_current src s = do
      item ← encode env (source src)
      managed ← client.upstream (modules_by manages_type (key_for_source env src)) s
      collect s item.k1 managed (index item [])

    -- `toDelete`
    unfoldable pub to_delete : Index → Index → List GraphItem
    to_delete [] proposed = []
    to_delete ((key, item) ∷ current) proposed =
        let rest = to_delete current proposed in
        if is_some (lookup key proposed)
        then rest
        else if item.graph_item_type == module_type
        then rest
        else item ∷ rest

    unfoldable pub after_put : Result (Unit {0}) × S → Result Bool × S
    after_put (ok _, s) = (ok true, s)
    after_put (err e, s) = (err partial_insertion, s)
    after_put (panic, s) = (panic, s)

    unfoldable pub after_delete : Index → Result (Unit {0}) × S → Result Bool × S
    unfolding after_put
    after_delete proposed (ok _, s) = after_put (client.put_items (values proposed) s)
    after_delete proposed (err e, s) = (err partial_deletion, s)
    after_delete proposed (panic, s) = (panic, s)

    unfoldable pub plan : SourceRequest → S → Result (Index × Index)
    unfolding get_current get_proposed
    plan req s = do
      current ← or_not_found (get_current req.source s)
      proposed ← or_not_found (get_proposed req)
      ok (current, proposed)

    -- The calls that change the graph.
    unfoldable pub carry_out : Result (Index × Index) → S → Result Bool × S
    unfolding to_delete after_delete
    carry_out (ok (current, proposed)) s =
        after_delete proposed (client.delete_items (to_delete current proposed) s)
    carry_out (err e) s = (err e, s)
    carry_out panic s = (panic, s)

    -- `Track`, whose response says that the source is tracked.
    unfoldable pub track : SourceRequest → S → Result Bool × S
    unfolding plan carry_out
    track req s = carry_out (plan req s) s
