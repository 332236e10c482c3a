-- ===== src/Tracker/Beta/Manifests/Reading.antt =====
-- What `GetStored` of tracker/internal/services/v1beta/manifeststorageservice.go reads from a
-- server that answers the requests of a stream in their order, as `Traverse` does.
use depscloud.Base.{list_eq, nat_eq, List, Option, [], err, external, keep, map, ok, refl, ◌++◌}
use depscloud.Base.{◌∙◌, ◌∷◌, ◌≡◌, ap, length, suc, ℕ, length-map, some, sym}
use depscloud.Base.Actions.{after, finally, Action, lift}
use depscloud.Tracker.Beta.Manifests.Storage.{StorageClient, Found, add_neighbor, add_neighbors}
use depscloud.Tracker.Beta.Manifests.Storage.{is_own, ask_all, from_request, recv_all, rounds}
use depscloud.Tracker.Beta.Manifests.Storage.{collect_stored, get_stored}
use depscloud.Tracker.Beta.Manifests.Outcome.{initial}
use depscloud.Base.Bytes.{Bytes}
use depscloud.Base.Dict.{Dict, insert, values}
use depscloud.Tracker.Beta.Types.{Edge, Neighbor, NeighborsRequest, Node}
use mathlib.Core.List.{append-nil, append_assoc}

-- The client of such a server, with the requests that are not answered yet. Writes are left open.
module _ {S : Type 0} (answer : NeighborsRequest → S → List Neighbor) where
  abbrev pub receive_next : Action (S × List NeighborsRequest) (List Neighbor)
  receive_next (s, []) = (err (external 0), (s, []))
  receive_next (s, r ∷ rs) = (ok (answer r s), (s, rs))

  abbrev pub stream_client :
      (List (Option Node) → List Edge → Action (S × List NeighborsRequest) (Unit {0}))
      → (List Edge → Action (S × List NeighborsRequest) (Unit {0}))
      → StorageClient (S × List NeighborsRequest)
  stream_client put delete = record {
    open_stream = λ (s, _). (ok tt, (s, []));
    ask = λ r (s, rs). (ok tt, (s, rs ++ (r ∷ [])));
    recv = receive_next;
    quit = λ (s, _). (s, []);
    put = put;
    delete = delete;
  }

  -- The answers to requests, one after the other.
  abbrev pub answers_to : List NeighborsRequest → S → List Neighbor
  answers_to [] s = []
  answers_to (r ∷ rs) s = answer r s ++ answers_to rs s

-- The edges of the answers without a key, or with the key of the source.
abbrev pub own_edges : Bytes → List Neighbor → List Edge
own_edges k [] = []
own_edges k (n ∷ ns) = keep (is_own k) n.edges ++ own_edges k ns

-- The nodes of the answers, one for each key.
abbrev pub node_index : List Neighbor → Dict Bytes Node → Dict Bytes Node
node_index [] d = d
node_index (n ∷ ns) d = node_index ns (insert n.node.key n.node d)

abbrev pub nodes_of : List Neighbor → List Node
nodes_of = map (λ n. n.node)

add_neighbors-found :
    (k : Bytes) (ns : List Neighbor) (f : Found)
    → add_neighbors k ns f ≡ record {
      next = node_index ns f.next;
      nodes = f.nodes ++ nodes_of ns;
      edges = f.edges ++ own_edges k ns;
    }
unfolding add_neighbors add_neighbor
add_neighbors-found k [] f = rw (append-nil f.nodes, append-nil f.edges) refl
add_neighbors-found k (n ∷ ns) f =
    add_neighbors-found k ns (add_neighbor k n f) ∙ rw append_assoc (rw append_assoc refl)

module _ {S : Type 0} (answer : NeighborsRequest → S → List Neighbor)
    (put : List (Option Node) → List Edge → Action (S × List NeighborsRequest) (Unit {0}))
    (delete : List Edge → Action (S × List NeighborsRequest) (Unit {0})) where
  ask_all-queue :
      (nodes : List Node) (s : S) (rs : List NeighborsRequest)
      → ask_all (stream_client answer put delete) nodes (s, rs)
        ≡ (ok tt, (s, rs ++ map from_request nodes))
  unfolding ask_all
  ask_all-queue [] s rs = rw append-nil refl
  ask_all-queue (n ∷ ns) s rs =
      ask_all-queue ns s (rs ++ (from_request n ∷ [])) ∙ rw append_assoc refl

  add_neighbors-append :
      (k : Bytes) (ms ns : List Neighbor) (f : Found)
      → add_neighbors k ns (add_neighbors k ms f) ≡ add_neighbors k (ms ++ ns) f
  unfolding add_neighbors
  add_neighbors-append k [] ns f = refl
  add_neighbors-append k (m ∷ ms) ns f = add_neighbors-append k ms ns (add_neighbor k m f)

  recv_all-queue :
      (k : Bytes) (rs : List NeighborsRequest) (f : Found) (s : S)
      → recv_all (stream_client answer put delete) k (length rs) f (s, rs)
        ≡ (ok (add_neighbors k (answers_to answer rs s) f), (s, []))
  unfolding recv_all add_neighbors
  recv_all-queue k [] f s = refl
  recv_all-queue k (r ∷ rs) f s =
      recv_all-queue k rs (add_neighbors k (answer r s) f) s
      ∙ ap (λ x. (ok x, (s, []))) (add_neighbors-append k (answer r s) (answers_to answer rs s) f)

  round-queue :
      (k : Bytes) (n : ℕ) (f : Found) (s : S)
      → rounds (stream_client answer put delete) k (suc n) f (s, [])
        ≡ rounds
            (stream_client answer put delete)
            k
            n
            (add_neighbors k
              (answers_to answer (map from_request (values f.next)) s)
              (record f { next = [] }))
            (s, [])
  unfolding rounds
  round-queue k n f s =
      let client = stream_client answer put delete in
      let rs = map from_request (values f.next) in
      let g = record f { next = [] } in
      let same : length f.next ≡ length rs =
        sym (length-map from_request (values f.next) ∙ length-map (λ (k, v). v) f.next) in
      ap (λ o. after o (λ _ s1. after (recv_all client k (length f.next) g s1) (rounds client k n)))
        (ask_all-queue (values f.next) s [])
      ∙ ap (λ m. after (recv_all client k m g (s, rs)) (rounds client k n)) same
      ∙ ap (λ o. after o (rounds client k n)) (recv_all-queue k rs g s)

  -- From a server that answers the requests of a stream in their order, `GetStored` reads the source,
  -- the neighbors that it leads to, and the neighbors that these lead to, each node asked once for
  -- its key; and of the edges those without a key or with the key of the source.
  pub get_stored-tiers :
      (n : Node) (s : S) (rs : List NeighborsRequest)
      → get_stored (stream_client answer put delete) (some n) (s, rs) ≡ (
        ok (
          n
              ∷ (nodes_of (answer (from_request n) s)
                  ++ nodes_of (
                      answers_to answer
                        (map from_request (values (node_index (answer (from_request n) s) [])))
                        s)),
          own_edges n.key (answer (from_request n) s)
              ++ own_edges n.key (
                  answers_to answer
                    (map from_request (values (node_index (answer (from_request n) s) [])))
                    s),
        ),
        (s, []),
      )
  unfolding get_stored collect_stored rounds
  get_stored-tiers n s rs =
      let client = stream_client answer put delete in
      let first = answer (from_request n) s in
      let second = answers_to answer (map from_request (values (node_index first []))) s in
      let f1 : Found = record {
        next = node_index first [];
        nodes = n ∷ nodes_of first;
        edges = own_edges n.key first;
      } in
      let e1 : add_neighbors n.key (first ++ []) (record (initial n) { next = [] }) ≡ f1 =
        rw append-nil (add_neighbors-found n.key first (record (initial n) { next = [] })) in
      let e2 = add_neighbors-found n.key second (record f1 { next = [] }) in
      let done : rounds client n.key 2 (initial n) (s, []) ≡ (
        ok (record {
          next = node_index second [];
          nodes = n ∷ (nodes_of first ++ nodes_of second);
          edges = own_edges n.key first ++ own_edges n.key second;
        }),
        (s, []),
      ) =
        round-queue n.key 1 (initial n) s
        ∙ ap (λ f. rounds client n.key 1 f (s, [])) e1
        ∙ round-queue n.key 0 f1 s
        ∙ ap (λ f. (ok f, (s, []))) e2 in
      ap (λ o. finally client.quit (λ _. after o (λ f. lift (ok (f.nodes, f.edges)))) (s, [])) done
