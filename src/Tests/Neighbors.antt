-- ===== src/Tests/Neighbors.antt =====
-- The v1beta graph store at concrete inputs.
use depscloud.Tracker.Beta.Driver.{Answers, Table, insert_graph_data, delete_graph_data}
use depscloud.Tracker.Beta.Driver.{sql_driver}
use depscloud.Tracker.Beta.Transforms.{encode, decode, as_edge, as_node, convert_edge}
use depscloud.Tracker.Beta.Transforms.{convert_graph_data, convert_node}
use depscloud.Tracker.Beta.Server.{neighbors as server_neighbors, put, delete, process_neighbors}
use depscloud.Base.{[], arith, list_eq, map, nat_eq, none, ok, option_eq, refl, some}
use depscloud.Base.{true, ℕ_discrete, ◌++◌, ◌∷◌, ◌≡◌, ◌≢◌}
use depscloud.Tracker.Beta.Driver.Writes.{AllOrNothing}
use depscloud.Base.Bytes.{Bytes, bytes}
use depscloud.Tracker.Beta.Types.{Edge, Node, WriteRequest, protocol_buffers}
use depscloud.Tracker.Beta.Server.Neighbors.{writes-AllOrNothing}
use depscloud.Tracker.Beta.Server.Groups.{ReadAs, group, process_neighbors_lem}
use depscloud.Tracker.Beta.Transforms.RoundTrip.{convert_graph_data_round_trip}
use depscloud.Tracker.Alpha.Types.{key_eq}
use depscloud.Deps.Topology.{key}

abbrev pub node : Bytes → Node
node key = record { key = key; type_url = bytes "module"; value = bytes "v" }

abbrev pub edge : Edge
edge = record {
  from_key = bytes "a";
  to_key = bytes "b";
  key = bytes "e";
  type_url = bytes "uses";
  value = bytes "w";
}

abbrev self_edge : Edge
self_edge = record edge { to_key = bytes "a" }

apart : {x y : Bytes} → x ≡ 97 ∷ [] → y ≡ 98 ∷ [] → x ≢ y
apart ex ey e = ground arith

text_ab : edge.from_key ≢ edge.to_key
text_ab = apart refl refl

convert_graph_data_round_trip_example :
    (convert_graph_data (convert_node (node (bytes "a")) 2 7) ≡ some (as_node (node (bytes "a"))))
    × (convert_graph_data (convert_edge edge 2 7) ≡ some (as_edge edge))
    × (convert_graph_data (convert_edge self_edge 2 7)
        ≡ some (as_node (record { key = bytes "a"; type_url = bytes "uses"; value = bytes "w" })))
convert_graph_data_round_trip_example =
    convert_graph_data_round_trip (node (bytes "a")) edge self_edge 2 7 (omega arith, tt)
      (omega arith, tt) (omega arith, tt) text_ab refl

abbrev pub answers : Answers
answers = record {
  begin = none;
  exec = λ n. none;
  commit = none;
  query = none;
  scan = λ r. none;
  scan_row = λ g. none;
  interrupted = none;
}

abbrev pub table : Table
table =
    convert_node (node (bytes "a")) 1 7
    ∷ convert_node (node (bytes "b")) 1 7
    ∷ convert_edge edge 1 7
    ∷ []

abbrev request : WriteRequest
request = record { nodes = node (bytes "a") ∷ []; edges = edge ∷ [] }

writes-AllOrNothing_example :
    AllOrNothing insert_graph_data
      (map (λ n. convert_node n protocol_buffers 9) request.nodes
        ++ map (λ e. convert_edge e protocol_buffers 9) request.edges)
      table
      (put (sql_driver true answers) 9 request table)
    × AllOrNothing delete_graph_data
        (map
            (λ e. record (convert_edge e protocol_buffers 9) { date_deleted = some 9 })
            request.edges
          ++ map
              (λ n. record (convert_node n protocol_buffers 9) { date_deleted = some 9 })
              request.nodes)
        table
        (delete (sql_driver true answers) 9 request table)
writes-AllOrNothing_example = writes-AllOrNothing true answers 9 request table

reads_one :
    ReadAs
      (λ x. x.to_key)
      ((convert_node (node (bytes "b")) 1 7, convert_edge edge 1 7) ∷ [])
      ((node (bytes "b"), edge) ∷ [])
unfolding convert_graph_data convert_node convert_edge encode decode list_eq nat_eq ℕ_discrete
reads_one = ((refl, refl, refl), tt)

process_neighbors_lem_example :
    process_neighbors
      (λ x. x.to_key)
      (convert_node (node (bytes "b")) 1 7 ∷ convert_edge edge 1 7 ∷ [])
      []
      []
    ≡ ok (group ((node (bytes "b"), edge) ∷ []) [])
process_neighbors_lem_example =
    process_neighbors_lem (λ x. x.to_key)
      ((convert_node (node (bytes "b")) 1 7, convert_edge edge 1 7) ∷ [])
      ((node (bytes "b"), edge) ∷ []) reads_one
