-- ===== src/Tracker/Beta/Server.antt =====
-- tracker/internal/graphstore/v1beta/server.go over any driver.
pub mod Groups
pub mod Neighbors
use depscloud.Tracker.Beta.Driver.{Driver}
use depscloud.Base.{◌>>=◌, List, Option, Result, [], if◌then◌else◌, length, list_eq, map, nat_eq}
use depscloud.Base.{none, ok, option_eq, panic, some, suc, zero, ℕ, ◌++◌, ◌∷◌}
use depscloud.Base.Bytes.{Bytes}
use depscloud.Base.Dict.{Dict, insert, lookup}
use depscloud.Tracker.Beta.Types.{Edge, GraphData, Neighbor, NeighborsRequest, Node}
use depscloud.Tracker.Beta.Types.{WriteRequest, protocol_buffers}
use depscloud.Tracker.Beta.Transforms.{as_edge, as_node, convert_edge, convert_graph_data}
use depscloud.Tracker.Beta.Transforms.{convert_node}
use depscloud.Tracker.Alpha.Track.{index}
use depscloud.Base.Options.{is_some}
use depscloud.Tracker.Alpha.Types.{key_eq}
use depscloud.Tracker.Alpha.Schema.{other}

-- `results[pos].Edges = append(…)`, which panics out of range.
unfoldable pub append_edge : ℕ → Edge → List Neighbor → Result (List Neighbor)
append_edge n e [] = panic
append_edge zero e (x ∷ xs) = ok (record x { edges = x.edges ++ (e ∷ []) } ∷ xs)
append_edge (suc n) e (x ∷ xs) = do rest ← append_edge n e xs; ok (x ∷ rest)

-- `index[key]`, 0 for a key that is missing.
abbrev pub or_zero : Option ℕ → ℕ
or_zero none = 0
or_zero (some n) = n

-- `processNeighbors`
unfoldable pub process_neighbors :
    (Edge → Bytes) → List GraphData → List Neighbor → Dict Bytes ℕ → Result (List Neighbor)
unfolding append_edge
process_neighbors key_fn [] results index = ok results
process_neighbors key_fn (neighbor ∷ rest) results index = elim (convert_graph_data neighbor) [
  | none ↦ process_neighbors key_fn rest results index
  | some (as_node node) ↦
      let old = is_some (lookup node.key index) in
      process_neighbors key_fn rest
        (if old then results else results ++ (record { node = node; edges = [] } ∷ []))
        (if old then index else insert node.key (length results) index)
  | some (as_edge edge) ↦ (do
    results' ← append_edge (or_zero (lookup (key_fn edge) index)) edge results
    process_neighbors key_fn rest results' index)
]

module _ {S : Type 0} (driver : Driver S) (now : ℕ) where
  -- `Put`: nodes before edges.
  unfoldable pub put : WriteRequest → S → Result (Unit {0}) × S
  put request s =
      driver.put
        (map (λ n. convert_node n protocol_buffers now) request.nodes
          ++ map (λ e. convert_edge e protocol_buffers now) request.edges)
        s

  -- `Delete`: edges before nodes.
  unfoldable pub delete : WriteRequest → S → Result (Unit {0}) × S
  delete request s =
      driver.delete
        (map (λ e. record (convert_edge e protocol_buffers now) { date_deleted = some now })
            request.edges
          ++ map (λ n. record (convert_node n protocol_buffers now) { date_deleted = some now })
              request.nodes)
        s

  -- One direction of `Neighbors`.
  unfoldable pub one_way :
      (List Bytes → S → Result (List GraphData))
      → (Edge → Bytes)
      → Option Node
      → S
      → Result (List Neighbor)
  unfolding process_neighbors
  one_way find key_fn none s = ok []
  one_way find key_fn (some node) s = do
    found ← find ((convert_node node protocol_buffers now).k1 ∷ []) s
    process_neighbors key_fn found [] []

  -- `if node != nil { toNode = node; fromNode = node }`
  abbrev or_else : Option Node → Option Node → Option Node
  or_else none set = set
  or_else (some n) set = some n

  -- `Neighbors`
  unfoldable pub neighbors : NeighborsRequest → S → Result (List Neighbor)
  unfolding one_way
  neighbors request s = do
    to_neighbors ←
        one_way driver.neighbors_to (λ e. e.from_key) (or_else request.node request.to_node) s
    from_neighbors ←
        one_way driver.neighbors_from (λ e. e.to_key) (or_else request.node request.from_node) s
    ok (to_neighbors ++ from_neighbors)
