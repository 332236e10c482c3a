-- ===== src/Tracker/Beta/Manifests.antt =====
-- tracker/internal/services/v1beta/serialization.go with the messages of
-- manifeststorageservice.go: how they become nodes and edges.
pub mod Proposal
pub mod Storage
pub mod Edges
pub mod Sizes
pub mod Outcome
pub mod View
pub mod Served
pub mod Reading
use depscloud.Base.Options.{◌>>=◌}
use depscloud.Base.Bytes.{Bytes, bytes}
use depscloud.Tracker.Beta.Types.{Edge, Node}
use depscloud.Base.{List, Option, Result, [], none, ok, panic, some, ◌∷◌}
use depscloud.Tracker.Alpha.Schema.{hashed}

-- `v1beta.Source`, `v1beta.Module`, `v1beta.SourceModule` and `v1beta.ModuleDependency`: the
-- messages that become nodes and edges.
pub data Message : Type 0 where
  source : (kind url : Bytes) → Message
  module_ : (language name : Bytes) → Message
  source_module : (version system : Bytes) → Message
  module_dependency : (ref version_constraint : Bytes) → List Bytes → Message

-- `v1beta.ManifestDependency`
pub record ManifestDependency : Type 0 where
  pub name : Bytes
  pub version_constraint : Bytes
  pub scopes : List Bytes

-- `v1beta.ManifestFile`
pub record ManifestFile : Type 0 where
  pub language : Bytes
  pub system : Bytes
  pub version : Bytes
  pub name : Bytes
  pub source_url : Bytes
  pub dependencies : List ManifestDependency

-- `v1beta.StoreRequest`
pub record StoreRequest : Type 0 where
  pub kind : Bytes
  pub url : Bytes
  pub ref : Bytes
  pub manifest_files : List ManifestFile

-- What the code takes from elsewhere: SHA-256, `ptypes.MarshalAny` with its type URL and its bytes,
-- where `none` is an error, and `proto.MessageName`.
pub record Env : Type 0 where
  pub digest : Bytes → Bytes
  pub marshal_any : Message → Option (Bytes × Bytes)
  pub message_name : Message → Bytes

-- `repositoryDefaultKind`
abbrev pub repository_kind : Bytes
repository_kind = bytes "repository"

-- The field of a pointer that may be nil.
abbrev pub deref : {A : Type 0} → Option A → Result A
deref none = panic
deref (some a) = ok a

module _ (env : Env) where
  -- `generateKey`
  abbrev pub generate_key : List Bytes → Bytes
  generate_key parts = env.digest (hashed parts)

  -- The key of a node, nil for another message.
  unfoldable pub node_key : Message → Bytes
  node_key (source kind url) = generate_key (env.message_name (source kind url) ∷ url ∷ [])
  node_key (module_ language name) =
      generate_key (env.message_name (module_ language name) ∷ language ∷ name ∷ [])
  node_key _ = []

  -- `newNode`, nil with its error
  unfoldable pub new_node : Message → Option Node
  unfolding node_key
  new_node msg = do
    (type_url, value) ← env.marshal_any msg
    some (record { key = node_key msg; type_url = type_url; value = value })

  -- `newEdge`, nil with its error, with the three keys that its callers set.
  unfoldable pub new_edge : Message → Bytes → Bytes → Bytes → Option Edge
  new_edge msg from_key to_key key = do
    (type_url, value) ← env.marshal_any msg
    some (record {
      from_key = from_key;
      to_key = to_key;
      key = key;
      type_url = type_url;
      value = value;
    })
