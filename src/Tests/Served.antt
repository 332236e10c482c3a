-- ===== src/Tests/Served.antt =====
-- The manifest storage service over the server of the v1beta graph store, on a small table.
use depscloud.Codec.Crc32.{checksum}
use depscloud.Tracker.Alpha.Schema.{hashed}
use depscloud.Tracker.Beta.Manifests.Storage.{get_stored, collect_stored, rounds, ask_all}
use depscloud.Tracker.Beta.Manifests.Storage.{recv_all, store, edges_to_delete}
use depscloud.Tracker.Beta.Manifests.Storage.{add_neighbor, add_neighbors, edge_key, index_edges}
use depscloud.Tracker.Beta.Manifests.Served.{Serving, body_at, served_client, served_view}
use depscloud.Tracker.Beta.Manifests.Served.{served_client-IsGraphStore}
use depscloud.Tracker.Beta.Driver.{Answers, Table}
use depscloud.Tracker.Beta.Transforms.{convert_edge, convert_node}
use depscloud.Tracker.Beta.Types.{GraphData, protocol_buffers, Edge, NeighborsRequest}
use depscloud.Tracker.Beta.Types.{Node}
use depscloud.Base.{list_eq, nat_eq, keep, ◌==◌, ℕ_discrete, List, Option, Option-cases, []}
use depscloud.Base.{arith, if◌then◌else◌, inl, inr, length, map, none, not, ok, option_eq, refl}
use depscloud.Base.{some, ℕ, ◌++◌, ◌∷◌, ◌≡◌, true, Result, ap, err, internal, panic}
use depscloud.Tracker.Beta.Manifests.{node_key, new_node}
use depscloud.Tracker.Beta.Manifests.{new_edge}
use depscloud.Tracker.Beta.Manifests.Proposal.{get_proposed, propose_dependencies}
use depscloud.Tracker.Beta.Manifests.Proposal.{propose_dependency, propose_file, propose_files}
use depscloud.Tracker.Beta.Manifests.Edges.{last_body, names}
use depscloud.Tracker.Beta.Manifests.View.{store-view}
use depscloud.Tracker.Alpha.Types.{key_eq}
use depscloud.Base.Dict.{values}
use depscloud.Codec.Base64.{std_decode, std_encode}
use depscloud.Tests.Storing.{wide, env, request, edge_at, node_at, old_edges, proposed, proposes}

abbrev well : Answers
well = record {
  begin = none;
  exec = λ n. none;
  commit = none;
  query = none;
  scan = λ r. none;
  scan_row = λ r. none;
  interrupted = none;
}

-- gRPC refuses a node that is nil.
abbrev all_present : List (Option Node) → Result (List Node)
all_present [] = ok []
all_present (none ∷ _) = err internal
all_present (some n ∷ nodes) = elim (all_present nodes) [
  | ok ns ↦ ok (n ∷ ns)
  | err e ↦ err e
  | panic ↦ panic
]

-- The server over a table with the same edges.
abbrev serving : Serving
serving = record {
  writable = true;
  reads = well;
  puts = well;
  put_time = 2;
  deletes = well;
  delete_time = 3;
  pass_on = all_present;
}

abbrev row_of_node : ℕ → GraphData
row_of_node a = convert_node (node_at a) protocol_buffers 1

abbrev row_of_edge : Edge → GraphData
row_of_edge e = convert_edge e protocol_buffers 1

abbrev rows_before : Table × List NeighborsRequest
rows_before = (row_of_node 15 ∷ row_of_node 99 ∷ row_of_node 98 ∷ map row_of_edge old_edges, [])

reads_served : get_stored (served_client serving) (some (node_at 15)) rows_before ≡ (
  ok (node_at 15 ∷ node_at 99 ∷ node_at 98 ∷ [], edge_at 15 99 [] ∷ edge_at 99 98 (wide 15) ∷ []),
  rows_before,
)
unfolding get_stored collect_stored rounds ask_all recv_all add_neighbors add_neighbor list_eq
    nat_eq ℕ_discrete depscloud.Base.Dict.insert depscloud.Base.Dict.lookup
    depscloud.Tracker.Beta.Server.neighbors depscloud.Tracker.Beta.Server.one_way
    depscloud.Tracker.Beta.Server.process_neighbors depscloud.Tracker.Beta.Server.append_edge
    depscloud.Tracker.Beta.Driver.neighbors depscloud.Tracker.Beta.Driver.read_neighbors
    depscloud.Tracker.Beta.Driver.join convert_node convert_edge
    depscloud.Tracker.Beta.Transforms.convert_graph_data depscloud.Tracker.Beta.Transforms.encode
    depscloud.Tracker.Beta.Transforms.decode std_encode std_decode
reads_served = refl

stores_served : (store (served_client serving) env request rows_before).0 ≡ ok tt
unfolding store get_stored collect_stored rounds ask_all recv_all add_neighbors add_neighbor list_eq
    nat_eq ℕ_discrete depscloud.Base.Dict.insert depscloud.Base.Dict.lookup
    depscloud.Tracker.Beta.Server.neighbors depscloud.Tracker.Beta.Server.one_way
    depscloud.Tracker.Beta.Server.process_neighbors depscloud.Tracker.Beta.Server.append_edge
    depscloud.Tracker.Beta.Driver.neighbors depscloud.Tracker.Beta.Driver.read_neighbors
    depscloud.Tracker.Beta.Driver.join convert_node convert_edge
    depscloud.Tracker.Beta.Transforms.convert_graph_data depscloud.Tracker.Beta.Transforms.encode
    depscloud.Tracker.Beta.Transforms.decode std_encode std_decode get_proposed propose_files
    propose_file propose_dependencies propose_dependency new_node new_edge node_key hashed checksum
    edges_to_delete index_edges edge_key depscloud.Tracker.Beta.Server.put
    depscloud.Tracker.Beta.Server.delete depscloud.Tracker.Beta.Driver.write
    depscloud.Tracker.Beta.Driver.exec_all
stores_served = refl

abbrev rows_after : Table × List NeighborsRequest
rows_after = (store (served_client serving) env request rows_before).1

stored_served : store (served_client serving) env request rows_before ≡ (ok tt, rows_after)
stored_served = ap (λ r. (r, rows_after)) stores_served

store-view_example :
    body_at (wide 15 ∷ wide 99 ∷ [] ∷ []) rows_after.0
    ≡ elim (last_body (wide 15 ∷ wide 99 ∷ [] ∷ []) proposed) [
      | some b ↦ some b
      | none ↦
          if names (wide 15 ∷ wide 99 ∷ [] ∷ []) (edge_at 15 99 [] ∷ edge_at 99 98 (wide 15) ∷ [])
          then none
          else body_at (wide 15 ∷ wide 99 ∷ [] ∷ []) rows_before.0
    ]
store-view_example =
    store-view (served_client serving) (served_view serving) (served_client-IsGraphStore serving)
      env request
      (some (node_at 25) ∷ some (node_at 16) ∷ some (node_at 24) ∷ some (node_at 15) ∷ []) proposed
      (edge_at 15 99 [] ∷ edge_at 99 98 (wide 15) ∷ []) (node_at 15)
      (node_at 15 ∷ node_at 99 ∷ node_at 98 ∷ []) rows_before rows_before rows_after proposes refl
      reads_served stored_served (λ x. refl) (tt, (tt, (tt, tt))) ((refl, refl), ((refl, refl), tt))
      (wide 15) (wide 99) [] (λ e. cc e)
