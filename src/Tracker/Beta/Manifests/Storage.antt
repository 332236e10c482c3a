-- ===== src/Tracker/Beta/Manifests/Storage.antt =====
-- `GetStored` and `Store` of tracker/internal/services/v1beta/manifeststorageservice.go, over any
-- client of the graph store.
use depscloud.Base.Actions.{◌>>=◌, ◌>>◌, Action, lift, or_error, finally}
use depscloud.Tracker.Beta.Manifests.Proposal.{get_proposed}
use depscloud.Tracker.Beta.Manifests.{Env, StoreRequest, deref}
use depscloud.Base.{Bool, List, Option, Result, [], get_last?, internal, keep, length, list_eq}
use depscloud.Base.{nat_eq, none, not, ok, option_eq, some, suc, zero, ℕ, ◌++◌, ◌==◌, ◌||◌, ◌∷◌}
use depscloud.Base.Bytes.{Bytes}
use depscloud.Base.Dict.{Dict, insert, lookup, values}
use depscloud.Tracker.Beta.Types.{Edge, Neighbor, NeighborsRequest, Node}
use depscloud.Tracker.Alpha.Track.{index}
use depscloud.Base.Options.{is_some}
use depscloud.Tracker.Alpha.Types.{key_eq}
use depscloud.Tracker.Alpha.Sql.Laws.{stored}

-- `graphstore.GraphStoreClient` with the stream of `Traverse`, over a state of the store and of the
-- stream: `open_stream` is `Traverse`, `ask` and `quit` are `SendMsg`, and `recv` is `Recv`. The
-- parts of a response are not nil.
pub record StorageClient (S : Type 0) : Type 0 where
  pub open_stream : Action S (Unit {0})
  pub ask : NeighborsRequest → Action S (Unit {0})
  pub recv : Action S (List Neighbor)
  pub quit : S → S
  pub put : List (Option Node) → List Edge → Action S (Unit {0})
  pub delete : List Edge → Action S (Unit {0})

-- The requests of `GetStored` have a `From`.
abbrev pub from_request : Node → NeighborsRequest
from_request node = record { node = none; to_node = none; from_node = some node }

-- What a round of `GetStored` adds up: the nodes of the next tier, all nodes and all edges.
pub record Found : Type 0 where
  pub next : Dict Bytes Node
  pub nodes : List Node
  pub edges : List Edge

-- `len(edge.Key) == 0 || bytes.Equal(edge.Key, source.Key)`
abbrev pub is_own : Bytes → Edge → Bool
is_own source_key e = e.key == [] || e.key == source_key

unfoldable pub add_neighbor : Bytes → Neighbor → Found → Found
add_neighbor source_key neighbor found = record {
  next = insert neighbor.node.key neighbor.node found.next;
  nodes = found.nodes ++ (neighbor.node ∷ []);
  edges = found.edges ++ keep (is_own source_key) neighbor.edges;
}

unfoldable pub add_neighbors : Bytes → List Neighbor → Found → Found
unfolding add_neighbor
add_neighbors source_key [] found = found
add_neighbors source_key (neighbor ∷ neighbors) found =
    add_neighbors source_key neighbors (add_neighbor source_key neighbor found)

-- `fmt.Sprintf("%s/%s/%s", …)`
unfoldable pub edge_key : Edge → Bytes
edge_key e = e.from_key ++ (47 ∷ (e.to_key ++ (47 ∷ e.key)))

-- The loop that fills `edgeIndex`.
unfoldable pub index_edges : List Edge → Dict Bytes Edge → Dict Bytes Edge
unfolding edge_key
index_edges [] index = index
index_edges (e ∷ es) index = index_edges es (insert (edge_key e) e index)

-- `edgesToDelete`
unfoldable pub edges_to_delete : List Edge → List Edge → List Edge
unfolding index_edges edge_key
edges_to_delete proposed stored =
    let index = index_edges proposed [] in
    keep (λ e. not (is_some (lookup (edge_key e) index))) stored

module _ {S : Type 0} (client : StorageClient S) where
  -- `for _, node := range tier`
  unfoldable pub ask_all : List Node → Action S (Unit {0})
  ask_all [] = lift (ok tt)
  ask_all (node ∷ nodes) = do client.ask (from_request node); ask_all nodes

  -- `for i := 0; i < len(tier); i++`
  unfoldable pub recv_all : Bytes → ℕ → Found → Action S Found
  unfolding add_neighbors
  recv_all source_key zero found = lift (ok found)
  recv_all source_key (suc n) found = do
    neighbors ← client.recv
    recv_all source_key n (add_neighbors source_key neighbors found)

  -- `for depth := 0; depth < 2; depth++`, with the rounds that are left.
  unfoldable pub rounds : Bytes → ℕ → Found → Action S Found
  unfolding ask_all recv_all
  rounds source_key zero found = lift (ok found)
  rounds source_key (suc n) found = do
    ask_all (values found.next)
    found' ← recv_all source_key (length found.next) (record found { next = [] })
    rounds source_key n found'

  -- What `GetStored` does behind its `defer`.
  unfoldable pub collect_stored : Option Node → Action S (List Node × List Edge)
  unfolding rounds
  collect_stored given = do
    from_source ← lift (deref given)
    found ← rounds from_source.key 2 (record {
      next = (from_source.key, from_source) ∷ [];
      nodes = from_source ∷ [];
      edges = [];
    })
    lift (ok (found.nodes, found.edges))

  -- `GetStored`
  unfoldable pub get_stored : Option Node → Action S (List Node × List Edge)
  unfolding collect_stored
  get_stored given = do client.open_stream; finally client.quit (collect_stored given)

  -- `proposedNodes[len(proposedNodes)-1]`
  abbrev pub last_node : List (Option Node) → Result (Option Node)
  last_node nodes = deref (get_last? nodes)

  -- `Store`
  unfoldable pub store : Env → StoreRequest → Action S (Unit {0})
  unfolding get_stored edges_to_delete
  store env request = do
    (proposed_nodes, proposed_edges) ← lift (get_proposed env request)
    given ← lift (last_node proposed_nodes)
    (_, stored_edges) ← or_error internal (get_stored given)
    or_error internal (client.put proposed_nodes proposed_edges)
    or_error internal (client.delete (edges_to_delete proposed_edges stored_edges))
    lift (ok tt)
