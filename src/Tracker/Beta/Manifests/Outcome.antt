-- ===== src/Tracker/Beta/Manifests/Outcome.antt =====
-- What `GetStored` and `Store` of tracker/internal/services/v1beta/manifeststorageservice.go do.
use depscloud.Base.Actions.{after-ok, or_error, with_error-ok}
use depscloud.Tracker.Beta.Manifests.Proposal.{get_proposed}
use depscloud.Tracker.Beta.Manifests.{Env, StoreRequest}
use depscloud.Tracker.Beta.Manifests.Storage.{StorageClient, Found, add_neighbor, add_neighbors}
use depscloud.Tracker.Beta.Manifests.Storage.{is_own, ask_all, collect_stored, edges_to_delete}
use depscloud.Tracker.Beta.Manifests.Storage.{get_stored, last_node, recv_all, rounds, store}
use depscloud.Base.{All, All-append, Bool, Bool-cases, List, Option, [], inl, inr, internal}
use depscloud.Base.{keep, length, none, ok, refl, some, suc, true, zero, ℕ, ◌∷◌, ◌≡◌}
use depscloud.Base.Bytes.{Bytes}
use depscloud.Tracker.Beta.Types.{Edge, Neighbor, Node}
use mathlib.Core.Path.{subst}
use depscloud.Base.Dict.{values}

abbrev IsOwn : Bytes → Edge → Type 0
IsOwn source_key e = is_own source_key e ≡ true

abbrev pub initial : Node → Found
initial n = record { next = (n.key, n) ∷ []; nodes = n ∷ []; edges = [] }

keep-All : (p : Edge → Bool) (es : List Edge) → All (λ e. p e ≡ true) (keep p es)
keep-All p [] = tt
keep-All p (e ∷ es) = elim (Bool-cases (p e)) [
  | inl t ↦ rw t (t, keep-All p es)
  | inr f ↦ rw f (keep-All p es)
]

add_neighbors-IsOwn :
    (k : Bytes) (ns : List Neighbor) (f : Found)
    → All (IsOwn k) f.edges
    → All (IsOwn k) (add_neighbors k ns f).edges
unfolding add_neighbors add_neighbor
add_neighbors-IsOwn k [] f h = h
add_neighbors-IsOwn k (n ∷ ns) f h =
    add_neighbors-IsOwn k ns (add_neighbor k n f)
      (All-append (IsOwn k) f.edges (keep (is_own k) n.edges) h (keep-All (is_own k) n.edges))

module _ {S : Type 0} (client : StorageClient S) where
  recv_all-IsOwn :
      (k : Bytes) (n : ℕ) (f g : Found) (s s' : S)
      → recv_all client k n f s ≡ (ok g, s')
      → All (IsOwn k) f.edges
      → All (IsOwn k) g.edges
  unfolding recv_all
  recv_all-IsOwn k zero f g s s' h own =
      let e : f ≡ g = cc h in subst (λ x. All (IsOwn k) x.edges) e own
  recv_all-IsOwn k (suc n) f g s s' h own =
      let (ns, s1, h0, h1) = after-ok (client.recv s) _ h in
      recv_all-IsOwn k n (add_neighbors k ns f) g s1 s' h1 (add_neighbors-IsOwn k ns f own)

  rounds-IsOwn :
      (k : Bytes) (n : ℕ) (f g : Found) (s s' : S)
      → rounds client k n f s ≡ (ok g, s')
      → All (IsOwn k) f.edges
      → All (IsOwn k) g.edges
  unfolding rounds
  rounds-IsOwn k zero f g s s' h own =
      let e : f ≡ g = cc h in subst (λ x. All (IsOwn k) x.edges) e own
  rounds-IsOwn k (suc n) f g s s' h own =
      let (u, s1, h0, h1) = after-ok (ask_all client (values f.next) s) _ h in
      let (f', s2, h2, h3) =
        after-ok (recv_all client k (length f.next) (record f { next = [] }) s1) _ h1 in
      rounds-IsOwn k n f' g s2 s' h3
        (recv_all-IsOwn k (length f.next) (record f { next = [] }) f' s1 s2 h2 own)

  collect_stored-IsOwn :
      (given : Option Node) (nodes : List Node) (edges : List Edge) (s s' : S)
      → collect_stored client given s ≡ (ok (nodes, edges), s')
      → (n : Node) × (given ≡ some n) × All (IsOwn n.key) edges
  unfolding collect_stored
  collect_stored-IsOwn none nodes edges s s' h = cc
  collect_stored-IsOwn (some n) nodes edges s s' h =
      let (f, s1, h0, h1) = after-ok (rounds client n.key 2 (initial n) s) _ h in
      let e : f.edges ≡ edges = cc h1 in
      (n, refl, subst (All (IsOwn n.key)) e (rounds-IsOwn n.key 2 (initial n) f s s1 h0 tt))

  get_stored-IsOwn :
      (given : Option Node) (nodes : List Node) (edges : List Edge) (s s' : S)
      → get_stored client given s ≡ (ok (nodes, edges), s')
      → (n : Node) × (given ≡ some n) × All (IsOwn n.key) edges
  unfolding get_stored
  get_stored-IsOwn given nodes edges s s' h =
      let (u, s1, h0, h1) = after-ok (client.open_stream s) _ h in
      let out = collect_stored client given s1 in
      collect_stored-IsOwn given nodes edges s1 out.1 (cc h1)

  -- The calls of a `Store` that succeeds.
  pub record Stored (env : Env) (request : StoreRequest) (s s' : S) : Type 0 where
    pub nodes : List (Option Node)
    pub edges : List Edge
    pub from_source : Node
    pub old_nodes : List Node
    pub old : List Edge
    pub read : S
    pub between : S
    pub proposal : get_proposed env request ≡ ok (nodes, edges)
    pub last : last_node client nodes ≡ ok (some from_source)
    pub current : get_stored client (some from_source) s ≡ (ok (old_nodes, old), read)
    pub puts : client.put nodes edges read ≡ (ok tt, between)
    pub deletes : client.delete (edges_to_delete edges old) between ≡ (ok tt, s')
    pub own : All (IsOwn from_source.key) old

  pub store-Stored :
      (env : Env) (request : StoreRequest) (s s' : S)
      → store client env request s ≡ (ok tt, s')
      → Stored env request s s'
  unfolding store
  store-Stored env request s s' h =
      let ((nodes, edges), s0, h0, h1) = after-ok (get_proposed env request, s) _ h in
      let (given, s1, h2, h3) = after-ok (last_node client nodes, s0) _ h1 in
      let ((old_nodes, old), s2, h4, h5) =
        after-ok (or_error internal (get_stored client given) s1) _ h3 in
      let (u, s3, h6, h7) = after-ok (or_error internal (client.put nodes edges) s2) _ h5 in
      let (u', s4, h8, h9) =
        after-ok (or_error internal (client.delete (edges_to_delete edges old)) s3) _ h7 in
      let g = with_error-ok internal (get_stored client given s1) h4 in
      let (n, e, own) = get_stored-IsOwn given old_nodes old s1 s2 g in
      record {
        nodes = nodes;
        edges = edges;
        from_source = n;
        old_nodes = old_nodes;
        old = old;
        read = s2;
        between = s3;
        proposal = cc h0;
        last = cc (h2, e);
        current = cc (g, e, h0, h2);
        puts = with_error-ok internal (client.put nodes edges s2) h6;
        deletes = cc (with_error-ok internal (client.delete (edges_to_delete edges old) s3) h8, h9);
        own = own;
      }
