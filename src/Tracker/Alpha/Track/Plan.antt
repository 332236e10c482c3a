-- ===== src/Tracker/Alpha/Track/Plan.antt =====
-- What `getProposed` keeps, and what `Track` deletes.
use depscloud.Tracker.Alpha.Schema.{encode, source, Env, Source, depends, depends_type}
use depscloud.Tracker.Alpha.Schema.{manages_type, module_, module_type, readable_key}
use depscloud.Base.{◌>>=◌, >>=-eq-ok, All, Bool, Bool-cases, List, Option, Option-cases, Result}
use depscloud.Base.{[], ap, arith, false, if◌then◌else◌, inl, inr, list_eq, nat_eq, none, ok}
use depscloud.Base.{option_eq, sym, true, ◌==◌, ◌∷◌, ◌≡◌, ◌⊎◌, ℕ}
use depscloud.Base.Bytes.{Bytes, bytes, AreBytes}
use depscloud.Tracker.Alpha.Types.{GraphItem, Key, key_eq}
use depscloud.Tracker.Alpha.Client.{GraphStoreClient, IsStore}
use depscloud.Tracker.Alpha.Track.{Index, ManagementFile, ManifestDependency, SourceRequest}
use depscloud.Tracker.Alpha.Track.{add_dependencies, add_discovered, add_files, get_current}
use depscloud.Tracker.Alpha.Track.{get_proposed, index, linked, manages_item, to_delete}
use depscloud.Tracker.Alpha.Track.Current.{Items, Owned, get_current-Items, own_depends}
use depscloud.Tracker.Alpha.Track.Current.{own_manages, own_module, own_source}
use depscloud.Base.Options.{is_some}
use depscloud.Base.Dict.{lookup, lookup-insert}
use mathlib.Core.Path.{subst}

-- Whether the index has an item under a key, which no insertion takes away.
abbrev pub Has : Bytes → Index → Type 0
Has key idx = is_some (lookup key idx) ≡ true

index-Has : (key : Bytes) (item : GraphItem) (idx : Index) → Has key idx → Has key (index item idx)
unfolding index
index-Has key item idx h = ground (arith, lookup-insert key (readable_key item) item idx)

index-Has_self : (item : GraphItem) (idx : Index) → Has (readable_key item) (index item idx)
unfolding index
index-Has_self item idx =
    ground (arith, lookup-insert (readable_key item) (readable_key item) item idx)

module _ (env : Env) where
  -- Which keys an index has, no step of `getProposed` takes away.
  module _ (key : Bytes) where
    add_dependencies-Has :
        (src : Source) (src_item managed : GraphItem) (lang : Bytes)
        (deps : List ManifestDependency) (idx idx' : Index)
        → add_dependencies env src src_item managed lang deps idx ≡ ok idx'
        → Has key idx
        → Has key idx'
    unfolding add_dependencies
    add_dependencies-Has src src_item managed lang [] idx idx' h a = ground arith
    add_dependencies-Has src src_item managed lang (d ∷ deps) idx idx' h a =
        let (_, _, h1) = >>=-eq-ok (encode env (module_ _)) _ h in
        let (_, _, h2) = >>=-eq-ok (encode env (depends _)) _ h1 in
        add_dependencies-Has src src_item managed lang deps _ idx' h2
          (index-Has key _ _ (index-Has key _ idx a))

    add_discovered-Has :
        (file : ManagementFile) (managed : GraphItem) (idx idx' : Index)
        → add_discovered env file managed idx ≡ ok idx'
        → Has key idx
        → Has key idx'
    unfolding add_discovered
    add_discovered-Has file managed idx idx' h a = elim (Bool-cases (file.source_url == [])) [
      | inl no_url ↦ ground arith
      | inr has_url ↦
          let h0 = subst (λ (b : Bool). (if b then ok idx else discovered) ≡ ok idx') has_url h in
          let (found, _, h1) = >>=-eq-ok (encode env (source _)) _ h0 in
          let (edge, _, h2) = >>=-eq-ok (manages_item env file) _ h1 in
          let same : index (linked edge found managed) (index found idx) ≡ idx' = cc h2 in
          subst (Has key) same (index-Has key _ _ (index-Has key _ idx a))
    ]
      where
        discovered : Result Index
        discovered = do
          found ←
              encode env
                (source (record { url = file.source_url; kind = bytes "repository"; ref = [] }))
          edge ← manages_item env file
          ok (index (linked edge found managed) (index found idx))

    add_files-Has :
        (src : Source) (src_item : GraphItem) (files : List ManagementFile) (idx idx' : Index)
        → add_files env src src_item files idx ≡ ok idx'
        → Has key idx
        → Has key idx'
    unfolding add_files
    add_files-Has src src_item [] idx idx' h a = ground arith
    add_files-Has src src_item (file ∷ files) idx idx' h a =
        let (managed, _, h1) = >>=-eq-ok (encode env (module_ _)) _ h in
        let (_, _, h2) = >>=-eq-ok (manages_item env file) _ h1 in
        let (found, e, h3) = >>=-eq-ok (add_discovered env file managed _) _ h2 in
        let (more, e', h4) = >>=-eq-ok (add_dependencies env src src_item managed _ _ found) _ h3 in
        add_files-Has src src_item files more idx' h4 (
          add_dependencies-Has src src_item managed file.language file.dependencies found more e'
            (add_discovered-Has file managed _ found e (index-Has key _ _ (index-Has key _ idx a))))

  get_proposed-Has :
      (req : SourceRequest) (src_item : GraphItem) (proposed : Index)
      → encode env (source req.source) ≡ ok src_item
      → get_proposed env req ≡ ok proposed
      → Has (readable_key src_item) proposed
  unfolding get_proposed
  get_proposed-Has req src_item proposed e h =
      let (item, e', h1) = >>=-eq-ok (encode env (source req.source)) _ h in
      let same : item ≡ src_item = cc (e, e') in
      add_files-Has (readable_key src_item) req.source item req.management_files _ proposed h1 (
        subst (λ i. Has (readable_key src_item) (index i [])) (sym same)
          (index-Has_self src_item []))

  -- An edge of this source: what `Track` may delete.
  pub data IsOwnEdge (src_item item : GraphItem) : Type 0 where
    own_manages_edge :
        item.graph_item_type ≡ manages_type → item.k1 ≡ src_item.k1 → IsOwnEdge src_item item
    own_depends_edge :
        item.graph_item_type ≡ depends_type
        → (item.k3 ≡ []) ⊎ (item.k3 ≡ src_item.k1)
        → IsOwnEdge src_item item

  own_edge :
      (src_item item : GraphItem) (proposed : Index)
      → Has (readable_key src_item) proposed
      → is_some (lookup (readable_key item) proposed) ≡ false
      → (item.graph_item_type == module_type) ≡ false
      → Owned src_item item
      → IsOwnEdge src_item item
  own_edge src_item item proposed has missing no_module (own_source e) = absurd (ground arith)
  own_edge src_item item proposed has missing no_module (own_module e) = absurd (ground arith)
  own_edge src_item item proposed has missing no_module (own_manages t k) = own_manages_edge t k
  own_edge src_item item proposed has missing no_module (own_depends t k) = own_depends_edge t k

  module _ {S : Type 0} (client : GraphStoreClient S) where
    to_delete-IsOwnEdge :
        (src_item : GraphItem) (current proposed : Index)
        → Has (readable_key src_item) proposed
        → Items (Owned src_item) current
        → All
            (λ item. IsOwnEdge src_item item × (lookup (readable_key item) proposed ≡ none))
            (to_delete env client current proposed)
    unfolding to_delete
    to_delete-IsOwnEdge src_item [] proposed has a = tt
    to_delete-IsOwnEdge src_item ((key, item) ∷ current) proposed has ((k, o), a) =
        let rest = to_delete-IsOwnEdge src_item current proposed has a in
        elim (Option-cases (lookup key proposed)) [
          | inr (_, kept) ↦ rw kept rest
          | inl missing ↦ rw missing (elim (Bool-cases (item.graph_item_type == module_type)) [
            | inl is_module ↦ rw is_module rest
            | inr no_module ↦
                let missing' : lookup (readable_key item) proposed ≡ none = cc (k, missing) in
                rw no_module (
                  (own_edge src_item item proposed has (ap is_some missing') no_module o, missing'),
                  rest,
                )
          ])
        ]

    -- Where SHA-256 yields bytes and the answers of the store fit the requests, `Track` deletes no source and no module, and
    -- of the edges only those that are not proposed and are its own: a manages edge that leads from
    -- the source of the request, or a depends edge that names this source or none as its origin.
    pub plan-IsOwnEdge :
        (digests : (x : Bytes) → AreBytes (env.digest x)) (view : S → Key → Option (ℕ × Bytes))
        (store : IsStore client view) (req : SourceRequest) (s : S) (current proposed : Index)
        → get_current env client req.source s ≡ ok current
        → get_proposed env req ≡ ok proposed
        → (src_item : GraphItem) × (encode env (source req.source) ≡ ok src_item)
          × All
              (λ item. IsOwnEdge src_item item × (lookup (readable_key item) proposed ≡ none))
              (to_delete env client current proposed)
    plan-IsOwnEdge digests view store req s current proposed now later =
        let (src_item, e, owned_items) =
          get_current-Items env digests client s (λ q pairs h. store.fits q s pairs h) req.source
            current now in
        (
          src_item,
          e,
          to_delete-IsOwnEdge src_item current proposed
              (get_proposed-Has req src_item proposed e later) owned_items,
        )
