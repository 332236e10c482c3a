-- ===== src/Tracker/Beta/Manifests/Sizes.antt =====
-- The keys of the edges that `GetProposed` of
-- tracker/internal/services/v1beta/manifeststorageservice.go makes.
use depscloud.Base.{inl, inr, Option-cases, Option, length, none, ok, some, ◌≡◌, >>=-eq-ok, All}
use depscloud.Base.{All-append, List, [], ap, ◌++◌, ◌∙◌, ◌∷◌, ok_snd}
use depscloud.Tracker.Beta.Manifests.{Env, source, module_, source_module, module_dependency}
use depscloud.Tracker.Beta.Manifests.{Message, deref, new_edge, new_node, ManifestDependency}
use depscloud.Tracker.Beta.Manifests.{ManifestFile, StoreRequest, node_key, repository_kind}
use depscloud.Tracker.Beta.Manifests.Proposal.{get_proposed, propose_dependencies}
use depscloud.Tracker.Beta.Manifests.Proposal.{propose_dependency, propose_file, propose_files}
use depscloud.Base.Bytes.{Bytes}
use depscloud.Tracker.Beta.Types.{Edge, Node}
use depscloud.Tracker.Beta.Manifests.Edges.{IsSized, place}
use mathlib.Core.Path.{subst}

deref-ok : {A : Type 0} (o : Option A) (a : A) → deref o ≡ ok a → o ≡ some a
deref-ok none a h = cc
deref-ok (some b) a h = cc

module _ (env : Env) where
  new_node-key : (msg : Message) (n : Node) → new_node env msg ≡ some n → n.key ≡ node_key env msg
  unfolding new_node
  new_node-key msg n h = elim (Option-cases (env.marshal_any msg)) [
    | inl e ↦ let h' = rw e at h in absurd (cc h')
    | inr ((t, v), e) ↦ let h' = rw e at h in cc h'
  ]

  new_edge-place :
      (msg : Message) (f t k : Bytes) (e : Edge)
      → new_edge env msg f t k ≡ some e
      → place e ≡ f ∷ t ∷ k ∷ []
  unfolding new_edge
  new_edge-place msg f t k e h = elim (Option-cases (env.marshal_any msg)) [
    | inl x ↦ let h' = rw x at h in absurd (cc h')
    | inr ((t, v), x) ↦ let h' = rw x at h in cc h'
  ]

  module _ (sized : (x : Bytes) → length (env.digest x) ≡ 32) where
    source-sized :
        (kind url : Bytes) (n : Node)
        → deref (new_node env (source kind url)) ≡ ok n
        → length n.key ≡ 32
    unfolding node_key
    source-sized kind url n h =
        ap length (new_node-key (source kind url) n (deref-ok _ n h)) ∙ sized _

    module-sized :
        (language name : Bytes) (n : Node)
        → deref (new_node env (module_ language name)) ≡ ok n
        → length n.key ≡ 32
    unfolding node_key
    module-sized language name n h =
        ap length (new_node-key (module_ language name) n (deref-ok _ n h)) ∙ sized _

    new_edge-IsSized :
        (msg : Message) (f t k : Bytes) (e : Edge)
        → deref (new_edge env msg f t k) ≡ ok e
        → length f ≡ 32
        → length t ≡ 32
        → IsSized e
    new_edge-IsSized msg f t k e h lf lt =
        let p = new_edge-place msg f t k e (deref-ok _ e h) in
        let pf : e.from_key ≡ f = cc p in
        let pt : e.to_key ≡ t = cc p in (ap length pf ∙ lf, ap length pt ∙ lt)

    dependency-IsSized :
        (ref language s m : Bytes) (d : ManifestDependency) (n : Option Node) (e : Edge)
        → propose_dependency env ref language s m d ≡ ok (n, e)
        → length m ≡ 32
        → IsSized e
    unfolding propose_dependency
    dependency-IsSized ref language s m d n e h lm =
        let (dep, h0, h1) = >>=-eq-ok (deref (new_node env (module_ language d.name))) _ h in
        let (edge, h2, h3) =
          >>=-eq-ok
            (deref (new_edge env (module_dependency ref d.version_constraint d.scopes) m dep.key s))
            _ h1 in
        let same : edge ≡ e = cc h3 in
        subst IsSized same
          (new_edge-IsSized _ m dep.key s edge h2 lm (module-sized language d.name dep h0))

    dependencies-IsSized :
        (ref language s m : Bytes) (ds : List ManifestDependency) (ns : List (Option Node))
        (es : List Edge)
        → propose_dependencies env ref language s m ds ≡ ok (ns, es)
        → length m ≡ 32
        → All IsSized es
    unfolding propose_dependencies
    dependencies-IsSized ref language s m [] ns es h lm =
        let e : [] ≡ es = cc h in subst (All IsSized) e tt
    dependencies-IsSized ref language s m (d ∷ ds) ns es h lm =
        let ((n, e), h0, h1) = >>=-eq-ok (propose_dependency env ref language s m d) _ h in
        let ((ns', es'), h2, h3) = >>=-eq-ok (propose_dependencies env ref language s m ds) _ h1 in
        let same : e ∷ es' ≡ es = ok_snd h3 in
        subst (All IsSized) same (
          dependency-IsSized ref language s m d n e h0 lm,
          dependencies-IsSized ref language s m ds ns' es' h2 lm,
        )

    file-IsSized :
        (ref kind url : Bytes) (f : ManifestFile) (ns : List (Option Node)) (es : List Edge)
        → propose_file env ref (new_node env (source kind url)) f ≡ ok (ns, es)
        → All IsSized es
    unfolding propose_file
    file-IsSized ref kind url f ns es h =
        let (rep, r, h1) =
          >>=-eq-ok (deref (new_node env (source repository_kind f.source_url))) _ h in
        let (m, e, h2) = >>=-eq-ok (deref (new_node env (module_ f.language f.name))) _ h1 in
        let (from, s, h3) = >>=-eq-ok (deref (new_node env (source kind url))) _ h2 in
        let sm = source_module f.version f.system in
        let (own, o, h4) = >>=-eq-ok (deref (new_edge env sm from.key m.key [])) _ h3 in
        let (rest, o', h5) = >>=-eq-ok (deref (new_edge env sm rep.key m.key [])) _ h4 in
        let ((ns', es'), d, h6) =
          >>=-eq-ok (propose_dependencies env ref f.language from.key m.key f.dependencies) _ h5 in
        let same : es' ++ (own ∷ rest ∷ []) ≡ es = ok_snd h6 in
        let lm = module-sized f.language f.name m e in
        subst (All IsSized) same (
          All-append IsSized es' (own ∷ rest ∷ [])
            (dependencies-IsSized ref f.language from.key m.key f.dependencies ns' es' d lm)
            (
              new_edge-IsSized sm from.key m.key [] own o (source-sized kind url from s) lm,
              (
                new_edge-IsSized sm rep.key m.key [] rest o'
                    (source-sized repository_kind f.source_url rep r) lm,
                tt,
              ),
            ))

    files-IsSized :
        (ref kind url : Bytes) (fs : List ManifestFile) (ns : List (Option Node)) (es : List Edge)
        → propose_files env ref (new_node env (source kind url)) fs ≡ ok (ns, es)
        → All IsSized es
    unfolding propose_files
    files-IsSized ref kind url [] ns es h = let e : [] ≡ es = cc h in subst (All IsSized) e tt
    files-IsSized ref kind url (f ∷ fs) ns es h =
        let ((ns', es'), h0, h1) =
          >>=-eq-ok (propose_file env ref (new_node env (source kind url)) f) _ h in
        let ((ns'', es''), h2, h3) =
          >>=-eq-ok (propose_files env ref (new_node env (source kind url)) fs) _ h1 in
        let same : es' ++ es'' ≡ es = ok_snd h3 in
        subst (All IsSized) same (
          All-append IsSized es' es'' (file-IsSized ref kind url f ns' es' h0)
            (files-IsSized ref kind url fs ns'' es'' h2))

    -- Where SHA-256 yields 32 bytes, so do both ends of each edge that is proposed.
    pub get_proposed-IsSized :
        (request : StoreRequest) (ns : List (Option Node)) (es : List Edge)
        → get_proposed env request ≡ ok (ns, es)
        → All IsSized es
    unfolding get_proposed
    get_proposed-IsSized request ns es h =
        let ((ns', es'), h0, h1) =
          >>=-eq-ok
            (propose_files env request.ref (new_node env (source request.kind request.url))
              request.manifest_files)
            _ h in
        let same : es' ≡ es = cc h1 in
        subst (All IsSized) same
          (files-IsSized request.ref request.kind request.url request.manifest_files ns' es' h0)
