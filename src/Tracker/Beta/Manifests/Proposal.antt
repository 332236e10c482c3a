-- ===== src/Tracker/Beta/Manifests/Proposal.antt =====
-- `GetProposed` of tracker/internal/services/v1beta/manifeststorageservice.go.
use depscloud.Base.{◌>>=◌, List, Option, Result, [], ok, some, ◌++◌, ◌∷◌}
use depscloud.Tracker.Beta.Manifests.{Env, source, module_, ManifestDependency}
use depscloud.Tracker.Beta.Manifests.{ManifestFile, StoreRequest, deref, module_dependency}
use depscloud.Tracker.Beta.Manifests.{new_edge, new_node, repository_kind, source_module}
use depscloud.Base.Bytes.{Bytes}
use depscloud.Tracker.Beta.Types.{Edge, Node}

module _ (env : Env) where
  -- One round of the loop over `GetDependencies`, with the key of the module.
  unfoldable pub propose_dependency :
      Bytes → Bytes → Bytes → Bytes → ManifestDependency → Result (Option Node × Edge)
  propose_dependency ref language source_key module_key d = do
    dependency ← deref (new_node env (module_ language d.name))
    edge ← deref (
        new_edge env (module_dependency ref d.version_constraint d.scopes) module_key dependency.key
          source_key)
    ok (some dependency, edge)

  -- The loop over `GetDependencies`.
  unfoldable pub propose_dependencies :
      Bytes
      → Bytes
      → Bytes
      → Bytes
      → List ManifestDependency
      → Result (List (Option Node) × List Edge)
  propose_dependencies ref language source_key module_key [] = ok ([], [])
  propose_dependencies ref language source_key module_key (d ∷ ds) = do
    (node, edge) ← propose_dependency ref language source_key module_key d
    (nodes, edges) ← propose_dependencies ref language source_key module_key ds
    ok (node ∷ nodes, edge ∷ edges)

  -- One round of the loop over `GetManifestFiles`. The source may be nil, and its key is read.
  unfoldable pub propose_file :
      Bytes → Option Node → ManifestFile → Result (List (Option Node) × List Edge)
  propose_file ref from_source f = do
    reported ← deref (new_node env (source repository_kind f.source_url))
    mod_ ← deref (new_node env (module_ f.language f.name))
    from ← deref from_source
    of_source ← deref (new_edge env (source_module f.version f.system) from.key mod_.key [])
    of_reported ← deref (new_edge env (source_module f.version f.system) reported.key mod_.key [])
    (nodes, edges) ← propose_dependencies ref f.language from.key mod_.key f.dependencies
    ok (nodes ++ (some reported ∷ some mod_ ∷ []), edges ++ (of_source ∷ of_reported ∷ []))

  unfoldable pub propose_files :
      Bytes → Option Node → List ManifestFile → Result (List (Option Node) × List Edge)
  propose_files ref from_source [] = ok ([], [])
  propose_files ref from_source (f ∷ fs) = do
    (nodes, edges) ← propose_file ref from_source f
    (more_nodes, more_edges) ← propose_files ref from_source fs
    ok (nodes ++ more_nodes, edges ++ more_edges)

  -- `GetProposed`, whose last node is the source. A node is nil where `newNode` failed.
  unfoldable pub get_proposed : StoreRequest → Result (List (Option Node) × List Edge)
  get_proposed request = do
    let from_source = new_node env (source request.kind request.url)
    (nodes, edges) ← propose_files request.ref from_source request.manifest_files
    ok (nodes ++ (from_source ∷ []), edges)
