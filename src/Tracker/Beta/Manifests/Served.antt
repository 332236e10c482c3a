-- ===== src/Tracker/Beta/Manifests/Served.antt =====
-- The graph store of tracker/internal/graphstore/v1beta behind the client of
-- tracker/internal/services/v1beta/manifeststorageservice.go, and the contract that it keeps.
use depscloud.Tracker.Beta.Server.{put, delete, neighbors}
use depscloud.Tracker.Beta.Driver.{Answers, Table, sql_driver, insert_graph_data}
use depscloud.Tracker.Beta.Driver.{delete_graph_data}
use depscloud.Tracker.Beta.Driver.Writes.{run_all}
use depscloud.Tracker.Beta.Server.Neighbors.{writes-AllOrNothing}
use depscloud.Tracker.Beta.Transforms.{convert_edge, convert_node, decode}
use depscloud.Tracker.Beta.Transforms.RoundTrip.{data-decode}
use depscloud.Tracker.Beta.Manifests.View.{IsGraphStore, View}
use depscloud.Tracker.Beta.Manifests.Edges.{last_body, names}
use depscloud.Tracker.Beta.Manifests.Storage.{StorageClient}
use depscloud.Tracker.Beta.Types.{Edge, GraphData, Neighbor, NeighborsRequest, Node}
use depscloud.Tracker.Beta.Types.{WriteRequest, protocol_buffers}
use depscloud.Base.Actions.{Action}
use depscloud.Base.{All, Bool, List, Option, Result, [], arith, err, external, if◌then◌else◌}
use depscloud.Base.{list_eq, map, nat_eq, none, ok, option_eq, panic, refl, some, ℕ, ◌++◌, ◌==◌}
use depscloud.Base.{◌∙◌, ◌∷◌, ◌≡◌, ◌≢◌, ap, inl, inr, sym}
use depscloud.Base.Bytes.{AreBytes, Bytes}
use depscloud.Tracker.Alpha.Types.{key_eq}
use mathlib.Core.List.{append-nil}

-- The body of the row at a place, if it is live and can be decoded.

abbrev row_place : GraphData → List Bytes
row_place g = g.k1 ∷ g.k2 ∷ g.k3 ∷ []

abbrev row_body : GraphData → Option (Bytes × Bytes)
row_body g = elim g.date_deleted [
  | some _ ↦ none
  | none ↦ elim (decode g.data_ g.encoding) [ none ↦ none | some value ↦ some (g.kind, value) ]
]

abbrev pub body_at : List Bytes → Table → Option (Bytes × Bytes)
body_at k [] = none
body_at k (g ∷ t) = if k == row_place g then row_body g else body_at k t

body_at-insert :
    (k : List Bytes) (new : GraphData) (t : Table)
    → body_at k (insert_graph_data new t)
      ≡ (if k == row_place new then row_body (record new { date_deleted = none }) else body_at k t)
unfolding insert_graph_data
body_at-insert k new [] = ground arith
body_at-insert k new (g ∷ t) = ground (arith, body_at-insert k new t)

body_at-delete :
    (k : List Bytes) (item : GraphData) (time : ℕ) (t : Table)
    → item.date_deleted ≡ some time
    → body_at k (delete_graph_data item t) ≡ (if k == row_place item then none else body_at k t)
unfolding delete_graph_data
body_at-delete k item time [] h = ground arith
body_at-delete k item time (g ∷ t) h = ground (arith, body_at-delete k item time t h, h)

-- A node is stored between its key and itself.
body_at-nodes :
    (from_key to_key key : Bytes) (now : ℕ) (nodes : List Node) (t : Table)
    → from_key ≢ to_key
    → body_at
        (from_key ∷ to_key ∷ key ∷ [])
        (run_all insert_graph_data (map (λ n. convert_node n protocol_buffers now) nodes) t)
      ≡ body_at (from_key ∷ to_key ∷ key ∷ []) t
unfolding convert_node
body_at-nodes from_key to_key key now [] t differ = refl
body_at-nodes from_key to_key key now (n ∷ nodes) t differ =
    body_at-nodes from_key to_key key now nodes
      (insert_graph_data (convert_node n protocol_buffers now) t) differ
    ∙ ground (
      arith,
      body_at-insert (from_key ∷ to_key ∷ key ∷ []) (convert_node n protocol_buffers now) t,
      differ,
    )

body_at-edges :
    (k : List Bytes) (now : ℕ) (edges : List Edge) (t : Table)
    → All (λ e. AreBytes e.value) edges
    → body_at k (run_all insert_graph_data (map (λ e. convert_edge e protocol_buffers now) edges) t)
      ≡ elim (last_body k edges) [ some b ↦ some b | none ↦ body_at k t ]
unfolding convert_edge
body_at-edges k now [] t h = refl
body_at-edges k now (e ∷ edges) t (he, h) = ground (
  arith,
  body_at-edges k now edges (insert_graph_data (convert_edge e protocol_buffers now) t) h,
  body_at-insert k (convert_edge e protocol_buffers now) t,
  data-decode e.value protocol_buffers he,
)

abbrev marked : ℕ → Edge → GraphData
marked now e = record (convert_edge e protocol_buffers now) { date_deleted = some now }

body_at-deletes :
    (k : List Bytes) (now : ℕ) (edges : List Edge) (t : Table)
    → body_at k (run_all delete_graph_data (map (marked now) edges) t)
      ≡ (if names k edges then none else body_at k t)
unfolding convert_edge
body_at-deletes k now [] t = ground arith
body_at-deletes k now (e ∷ edges) t = ground (
  arith,
  body_at-deletes k now edges (delete_graph_data (marked now e) t),
  body_at-delete k (marked now e) now t refl,
)

run_all-append :
    (run : GraphData → Table → Table) (xs ys : List GraphData) (t : Table)
    → run_all run (xs ++ ys) t ≡ run_all run ys (run_all run xs t)
run_all-append run [] ys t = refl
run_all-append run (x ∷ xs) ys t = run_all-append run xs ys (run x t)

-- What the database answers to each call, the times of the two writes, and how gRPC passes on nodes
-- of which some are nil.
pub record Serving : Type 0 where
  pub writable : Bool
  pub reads : Answers
  pub puts : Answers
  pub put_time : ℕ
  pub deletes : Answers
  pub delete_time : ℕ
  pub pass_on : List (Option Node) → Result (List Node)

-- The client of a server over a table. The requests of the stream are answered in their order.
module _ (a : Serving) where
  abbrev put_passed :
      Result (List Node) → List Edge → Action (Table × List NeighborsRequest) (Unit {0})
  put_passed (err e) edges s = (err e, s)
  put_passed panic edges s = (panic, s)
  put_passed (ok nodes) edges (t, rs) =
      let out =
        put (sql_driver a.writable a.puts) a.put_time (record { nodes = nodes; edges = edges }) t in
      (out.0, (out.1, rs))

  abbrev receive_served : Action (Table × List NeighborsRequest) (List Neighbor)
  receive_served (t, []) = (err (external 0), (t, []))
  receive_served (t, r ∷ rs) = (neighbors (sql_driver a.writable a.reads) a.put_time r t, (t, rs))

  abbrev delete_served : List Edge → Action (Table × List NeighborsRequest) (Unit {0})
  delete_served edges (t, rs) =
      let out =
        delete (sql_driver a.writable a.deletes) a.delete_time
          (record { nodes = []; edges = edges }) t in
      (out.0, (out.1, rs))

  abbrev pub served_client : StorageClient (Table × List NeighborsRequest)
  served_client = record {
    open_stream = λ (t, _). (ok tt, (t, []));
    ask = λ r (t, rs). (ok tt, (t, rs ++ (r ∷ [])));
    recv = receive_served;
    quit = λ (t, _). (t, []);
    put = λ nodes. put_passed (a.pass_on nodes);
    delete = delete_served;
  }

  abbrev pub served_view : View (Table × List NeighborsRequest)
  served_view (t, _) k = body_at k t

  recv-view : (s : Table × List NeighborsRequest) → served_view (receive_served s).1 ≡ served_view s
  recv-view (t, []) = refl
  recv-view (t, r ∷ rs) = refl

  -- The server over sqlite keeps the contract of the client.
  pub served_client-IsGraphStore : IsGraphStore served_client served_view
  served_client-IsGraphStore = record {
    opens = λ s. refl;
    asks = λ r s. refl;
    recvs = recv-view;
    quits = λ s. refl;
    puts = λ nodes edges. put-view (a.pass_on nodes) edges;
    deletes = delete-view;
  }
    where
      put-view :
          (passed : Result (List Node)) (edges : List Edge) (s s' : Table × List NeighborsRequest)
          → put_passed passed edges s ≡ (ok tt, s')
          → All (λ e. AreBytes e.value) edges
          → (from_key to_key key : Bytes) → from_key ≢ to_key
          → served_view s' (from_key ∷ to_key ∷ key ∷ [])
            ≡ elim (last_body (from_key ∷ to_key ∷ key ∷ []) edges) [
              | some b ↦ some b
              | none ↦ served_view s (from_key ∷ to_key ∷ key ∷ [])
            ]
      put-view (err e) edges s s' h valued from_key to_key key differ = cc
      put-view panic edges s s' h valued from_key to_key key differ = cc
      put-view (ok nodes) edges (t, rs) (t', rs') h valued from_key to_key key differ =
          let k = from_key ∷ to_key ∷ key ∷ [] in
          let request : WriteRequest = record { nodes = nodes; edges = edges } in
          let stored = map (λ n. convert_node n protocol_buffers a.put_time) nodes in
          let written = map (λ e. convert_edge e protocol_buffers a.put_time) edges in
          let out = put (sql_driver a.writable a.puts) a.put_time request t in
          let fine : out.0 ≡ ok tt = cc h in
          let same : out.1 ≡ t' = cc h in
          elim ((writes-AllOrNothing a.writable a.puts a.put_time request t).0) [
            | inr (failed, _) ↦ absurd (failed fine)
            | inl (_, ran) ↦
                ap (body_at k) (sym same ∙ ran ∙ run_all-append insert_graph_data stored written t)
                ∙ body_at-edges k a.put_time edges (run_all insert_graph_data stored t) valued
                ∙ ap (λ old. elim (last_body k edges) [ some b ↦ some b | none ↦ old ])
                    (body_at-nodes from_key to_key key a.put_time nodes t differ)
          ]

      delete-view :
          (edges : List Edge) (s s' : Table × List NeighborsRequest)
          → delete_served edges s ≡ (ok tt, s')
          → (k : List Bytes) → served_view s' k ≡ (if names k edges then none else served_view s k)
      delete-view edges (t, rs) (t', rs') h k =
          let request : WriteRequest = record { nodes = []; edges = edges } in
          let out = delete (sql_driver a.writable a.deletes) a.delete_time request t in
          let fine : out.0 ≡ ok tt = cc h in
          let same : out.1 ≡ t' = cc h in
          elim ((writes-AllOrNothing a.writable a.deletes a.delete_time request t).1) [
            | inr (failed, _) ↦ absurd (failed fine)
            | inl (_, ran) ↦
                ap (body_at k) (
                  sym same
                  ∙ ran
                  ∙ ap (λ xs. run_all delete_graph_data xs t)
                      (append-nil (map (marked a.delete_time) edges)))
                ∙ body_at-deletes k a.delete_time edges t
          ]
