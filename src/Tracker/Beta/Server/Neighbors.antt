-- ===== src/Tracker/Beta/Server/Neighbors.antt =====
-- The handlers of the server over `sqlDriver`.
use depscloud.Base.{Bool}
use depscloud.Base.{list_eq, map, nat_eq, option_eq, some, true, ℕ}
use depscloud.Base.{◌++◌, ◌≡◌, ◌≢◌}
use depscloud.Tracker.Beta.Driver.{insert_graph_data, delete_graph_data, Answers, Table}
use depscloud.Tracker.Beta.Driver.{neighbors}
use depscloud.Tracker.Beta.Driver.{sql_driver, selected}
use depscloud.Tracker.Beta.Transforms.{decode, convert_edge}
use depscloud.Tracker.Beta.Transforms.{convert_node}
use depscloud.Tracker.Beta.Server.{neighbors as server_neighbors, put, delete}
use depscloud.Tracker.Beta.Driver.Writes.{AllOrNothing, write-AllOrNothing}
use depscloud.Base.Bytes.{Bytes}
use depscloud.Tracker.Beta.Types.{Edge, GraphData, WriteRequest, protocol_buffers}
use depscloud.Tracker.Alpha.Types.{key_eq}
use depscloud.Tracker.Alpha.Store.Pages.{request}

abbrev pub selected_pair : GraphData × GraphData → GraphData × GraphData
selected_pair (g1, g2) = (selected g1, selected g2)

-- The data of the row can be decoded.
abbrev pub IsReadable : GraphData → Type 0
IsReadable g = (value : Bytes) × (decode g.data_ g.encoding ≡ some value)

-- A row of the answer, by the condition of its join.
abbrev Joined : (GraphData → GraphData → Bool) → GraphData × GraphData → Type 0
Joined on (g1, g2) = (on g1 g2 ≡ true) × IsReadable g1 × IsReadable g2

-- The condition of a join that puts an edge behind its node.
abbrev Puts : (Edge → Bytes) → (GraphData → GraphData → Bool) → Type 0
Puts key_fn on =
    (g1 g2 : GraphData)
    → on g1 g2 ≡ true
    → (g1.k1 ≡ g1.k2)
      × (g2.k1 ≢ g2.k2)
      × ((x : Edge) → x.from_key ≡ g2.k1 → x.to_key ≡ g2.k2 → key_fn x ≡ g1.k1)

-- `Put` and `Delete` over the SQL driver are all or nothing: the table has every node and then every
-- edge of the request written (marked as deleted, edges first, for `Delete`) and success is reported,
-- or an error is reported and the table is as it was.
pub writes-AllOrNothing :
    (writable : Bool) (answers : Answers) (now : ℕ) (request : WriteRequest) (t : Table)
    → AllOrNothing insert_graph_data
        (map (λ n. convert_node n protocol_buffers now) request.nodes
          ++ map (λ e. convert_edge e protocol_buffers now) request.edges)
        t
        (put (sql_driver writable answers) now request t)
      × AllOrNothing delete_graph_data
          (map
              (λ e. record (convert_edge e protocol_buffers now) { date_deleted = some now })
              request.edges
            ++ map
                (λ n. record (convert_node n protocol_buffers now) { date_deleted = some now })
                request.nodes)
          t
          (delete (sql_driver writable answers) now request t)
unfolding put delete
writes-AllOrNothing writable answers now request t = (
  write-AllOrNothing writable insert_graph_data answers _ t,
  write-AllOrNothing writable delete_graph_data answers _ t,
)
