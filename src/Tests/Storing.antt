-- ===== src/Tests/Storing.antt =====
-- The manifest storage service over a small store: a list of edges, where a later one counts.
use depscloud.Codec.Crc32.{checksum}
use depscloud.Tracker.Alpha.Schema.{hashed}
use depscloud.Tracker.Beta.Manifests.Storage.{get_stored, collect_stored, rounds, ask_all}
use depscloud.Tracker.Beta.Manifests.Storage.{recv_all, edges_to_delete, StorageClient}
use depscloud.Tracker.Beta.Manifests.Storage.{add_neighbor, add_neighbors, edge_key, index_edges}
use depscloud.Tracker.Beta.Manifests.Storage.{from_request, is_own}
use depscloud.Tracker.Beta.Types.{Edge, Neighbor, NeighborsRequest}
use depscloud.Tracker.Beta.Types.{Node}
use depscloud.Base.Actions.{Action}
use depscloud.Base.{list_eq, nat_eq, keep, ◌==◌, ℕ_discrete, List, Option, Option-cases, []}
use depscloud.Base.{arith, if◌then◌else◌, inl, inr, length, map, none, not, ok, option_eq, refl}
use depscloud.Base.{some, ℕ, ◌++◌, ◌∷◌, ◌≡◌, true, Result, ap, err, internal, panic}
use depscloud.Tracker.Beta.Manifests.{Env, StoreRequest, ManifestFile, node_key, new_node}
use depscloud.Tracker.Beta.Manifests.{new_edge}
use depscloud.Tracker.Beta.Manifests.Proposal.{get_proposed, propose_dependencies}
use depscloud.Tracker.Beta.Manifests.Proposal.{propose_dependency, propose_file, propose_files}
use depscloud.Tracker.Beta.Manifests.Edges.{names, place}
use depscloud.Tracker.Beta.Manifests.Reading.{stream_client, get_stored-tiers, answers_to}
use depscloud.Tracker.Beta.Manifests.Reading.{node_index, nodes_of, own_edges}
use depscloud.Tracker.Beta.Manifests.Outcome.{Stored}
use depscloud.Base.Bytes.{Bytes, bytes}
use depscloud.Tracker.Alpha.Types.{key_eq}
use depscloud.Base.Dict.{values}

abbrev Stream : Type 0
Stream = List Edge × List NeighborsRequest

-- The edges from a node, each with a neighbor of its own.
abbrev edges_from : NeighborsRequest → List Edge → List Neighbor
edges_from r es = elim r.from_node [
  | none ↦ []
  | some n ↦
      map
        (λ e. record {
          node = record { key = e.to_key; type_url = []; value = [] };
          edges = e ∷ [];
        })
        (keep (λ e. e.from_key == n.key) es)
]

abbrev put_edges : List (Option Node) → List Edge → Action Stream (Unit {0})
put_edges _ edges (es, rs) = (ok tt, (es ++ edges, rs))

abbrev delete_edges : List Edge → Action Stream (Unit {0})
delete_edges edges (es, rs) = (ok tt, (keep (λ e. not (names (place e) edges)) es, rs))

abbrev client : StorageClient Stream
client = stream_client edges_from put_edges delete_edges

-- A digest of 32 bytes that tells texts apart by their length.
abbrev pub wide : ℕ → Bytes
wide n =
    n ∷ 0 ∷ 0 ∷ 0 ∷ 0 ∷ 0 ∷ 0 ∷ 0 ∷ 0 ∷ 0 ∷ 0 ∷ 0 ∷ 0 ∷ 0 ∷ 0 ∷ 0 ∷ 0 ∷ 0 ∷ 0 ∷ 0 ∷ 0 ∷ 0 ∷ 0 ∷ 0
    ∷ 0 ∷ 0 ∷ 0 ∷ 0 ∷ 0 ∷ 0 ∷ 0 ∷ 0 ∷ []

abbrev pub env : Env
env = record {
  digest = λ x. wide (length x);
  marshal_any = λ m. some (bytes "t", []);
  message_name = λ m. [];
}

abbrev file : ManifestFile
file = record {
  language = bytes "go";
  system = bytes "vgo";
  version = bytes "1";
  name = bytes "m";
  source_url = bytes "vv";
  dependencies = record { name = bytes "dd"; version_constraint = []; scopes = [] } ∷ [];
}

abbrev pub request : StoreRequest
request = record {
  kind = bytes "repository";
  url = bytes "u";
  ref = bytes "main";
  manifest_files = file ∷ [];
}

abbrev pub edge_at : ℕ → ℕ → Bytes → Edge
edge_at a b k = record {
  from_key = wide a;
  to_key = wide b;
  key = k;
  type_url = bytes "t";
  value = [];
}

abbrev pub node_at : ℕ → Node
node_at a = record { key = wide a; type_url = bytes "t"; value = [] }

abbrev pub old_edges : List Edge
old_edges = edge_at 15 99 [] ∷ edge_at 99 98 (wide 15) ∷ edge_at 99 98 (wide 7) ∷ []

abbrev pub proposed : List Edge
proposed = edge_at 24 25 (wide 15) ∷ edge_at 15 24 [] ∷ edge_at 16 24 [] ∷ []

pub proposes :
    get_proposed env request
    ≡ ok (
      some (node_at 25) ∷ some (node_at 16) ∷ some (node_at 24) ∷ some (node_at 15) ∷ [],
      proposed,
    )
unfolding get_proposed propose_files propose_file propose_dependencies propose_dependency new_node
    new_edge node_key hashed checksum
proposes = refl

abbrev bare : ℕ → Node
bare a = record { key = wide a; type_url = []; value = [] }

abbrev before : Stream
before = (old_edges, [])

abbrev afterwards : Stream
afterwards = (edge_at 99 98 (wide 7) ∷ proposed, [])

reads : get_stored client (some (node_at 15)) before ≡ (
  ok (
    node_at 15 ∷ bare 99 ∷ bare 98 ∷ bare 98 ∷ [],
    edge_at 15 99 [] ∷ edge_at 99 98 (wide 15) ∷ [],
  ),
  before,
)
unfolding get_stored collect_stored rounds ask_all recv_all add_neighbors add_neighbor list_eq
    nat_eq ℕ_discrete depscloud.Base.Dict.insert
reads = refl

deletes_old :
    client.delete
      (edges_to_delete proposed (edge_at 15 99 [] ∷ edge_at 99 98 (wide 15) ∷ []))
      (old_edges ++ proposed, [])
    ≡ (ok tt, afterwards)
unfolding edges_to_delete index_edges edge_key list_eq nat_eq ℕ_discrete depscloud.Base.Dict.insert
    depscloud.Base.Dict.lookup
deletes_old = refl

own_key : is_own (wide 15) (edge_at 99 98 (wide 15)) ≡ true
unfolding list_eq nat_eq ℕ_discrete
own_key = refl

no_key : is_own (wide 15) (edge_at 15 99 []) ≡ true
unfolding list_eq nat_eq ℕ_discrete
no_key = refl

abbrev done : Stored client env request before afterwards
done = record {
  nodes = some (node_at 25) ∷ some (node_at 16) ∷ some (node_at 24) ∷ some (node_at 15) ∷ [];
  edges = proposed;
  from_source = node_at 15;
  old_nodes = node_at 15 ∷ bare 99 ∷ bare 98 ∷ bare 98 ∷ [];
  old = edge_at 15 99 [] ∷ edge_at 99 98 (wide 15) ∷ [];
  read = before;
  between = (old_edges ++ proposed, []);
  proposal = proposes;
  last = refl;
  current = reads;
  puts = refl;
  deletes = deletes_old;
  own = (no_key, (own_key, tt));
}

get_stored-tiers_example : get_stored client (some (node_at 15)) before ≡ (
  ok (
    node_at 15
        ∷ (nodes_of (edges_from (from_request (node_at 15)) old_edges)
            ++ nodes_of (
                answers_to edges_from
                  (map from_request
                    (values (node_index (edges_from (from_request (node_at 15)) old_edges) [])))
                  old_edges)),
    own_edges (wide 15) (edges_from (from_request (node_at 15)) old_edges)
        ++ own_edges (wide 15) (
            answers_to edges_from
              (map from_request
                (values (node_index (edges_from (from_request (node_at 15)) old_edges) [])))
              old_edges),
  ),
  before,
)
get_stored-tiers_example =
    get_stored-tiers edges_from put_edges delete_edges (node_at 15) old_edges []
