-- ===== src/Tracker/Beta/Server/Groups.antt =====
-- `processNeighbors` groups edges by the node that they stand behind.
-- The reference: a list of neighbors, searched by key.
use depscloud.Base.Bytes.{Bytes}
use depscloud.Base.Dict.{Dict, lookup, lookup-insert, insert, lookup-nil}
use depscloud.Tracker.Beta.Types.{Edge, GraphData, Neighbor, Node}
use depscloud.Base.{List, Option, [], arith, if◌then◌else◌, length, list_eq, nat_eq, none, ok}
use depscloud.Base.{option_eq, refl, some, suc, ℕ, ◌++◌, ◌==◌, ◌∷◌, ◌≡◌, Bool-cases}
use depscloud.Base.{Option-cases, inl, inr, zero, Bool, ap, false, true, ◌∙◌}
use depscloud.Tracker.Beta.Server.{append_edge, process_neighbors}
use depscloud.Tracker.Beta.Transforms.{as_edge, as_node, convert_graph_data}
use depscloud.Tracker.Alpha.Track.{index}
use depscloud.Tracker.Alpha.Types.{key_eq}

pub attach : Node × Edge → List Neighbor → List Neighbor
attach (n, e) [] = record { node = n; edges = e ∷ [] } ∷ []
attach (n, e) (x ∷ xs) =
    let rest = attach (n, e) xs in
    if n.key == x.node.key then record x { edges = x.edges ++ (e ∷ []) } ∷ xs else x ∷ rest

pub group : List (Node × Edge) → List Neighbor → List Neighbor
unfolding attach
group [] results = results
group (p ∷ pairs) results = group pairs (attach p results)

-- A position behind one more neighbor, and the position of a key that is added if it is missing.
abbrev shift : Option ℕ → Option ℕ
shift none = none
shift (some n) = some (suc n)

abbrev or_at : Option ℕ → Bool → ℕ → Option ℕ
or_at none true l = some l
or_at none false l = none
or_at (some p) b l = some p

-- Where the neighbor of a key stands.
position : Bytes → List Neighbor → Option ℕ
position k [] = none
position k (x ∷ xs) = let rest = position k xs in if k == x.node.key then some 0 else shift rest

append_edge-new :
    (n : Node) (e : Edge) (xs : List Neighbor)
    → position n.key xs ≡ none
    → append_edge (length xs) e (xs ++ (record { node = n; edges = [] } ∷ []))
      ≡ ok (attach (n, e) xs)
unfolding append_edge position attach
append_edge-new n e [] h = refl
append_edge-new n e (x ∷ xs) h = ground (arith, append_edge-new n e xs)

append_edge-old :
    (n : Node) (e : Edge) (p : ℕ) (xs : List Neighbor)
    → position n.key xs ≡ some p
    → append_edge p e xs ≡ ok (attach (n, e) xs)
unfolding append_edge position attach
append_edge-old n e p [] h = cc
append_edge-old n e zero (x ∷ xs) h = ground arith
append_edge-old n e (suc p) (x ∷ xs) h = ground (arith, append_edge-old n e p xs)

lift : (o : Option ℕ) (b : Bool) (l : ℕ) → shift (or_at o b l) ≡ or_at (shift o) b (suc l)
lift none true l = refl
lift none false l = refl
lift (some p) b l = refl

position-attach :
    (k : Bytes) (n : Node) (e : Edge) (xs : List Neighbor)
    → position k (attach (n, e) xs) ≡ or_at (position k xs) (k == n.key) (length xs)
unfolding position attach
position-attach k n e [] = ground arith
position-attach k n e (x ∷ xs) = elim (Bool-cases (n.key == x.node.key)) [
  | inl same ↦ rw (same, attach) (ground arith)
  | inr differs ↦
      rw (differs, attach)
        (elim (Bool-cases (k == x.node.key)) [
          | inl here ↦ rw (here, position) refl
          | inr later ↦
              rw (later, position)
                (rw (position-attach k n e xs) (lift (position k xs) (k == n.key) (length xs)))
        ])
]

-- The rows of a node and of an edge behind it.
abbrev pub rows_of : List (GraphData × GraphData) → List GraphData
rows_of [] = []
rows_of ((g1, g2) ∷ rest) = g1 ∷ g2 ∷ rows_of rest

-- Rows that are read as a node and an edge, by which the edge belongs to the node.
abbrev pub ReadAs : (Edge → Bytes) → List (GraphData × GraphData) → List (Node × Edge) → Type 0
ReadAs key_fn [] [] = Unit
ReadAs key_fn ((g1, g2) ∷ rows) ((n, e) ∷ pairs) =
    ((convert_graph_data g1 ≡ some (as_node n))
      × (convert_graph_data g2 ≡ some (as_edge e))
      × (key_fn e ≡ n.key))
    × ReadAs key_fn rows pairs
ReadAs key_fn _ _ = ⊥

-- The map from keys to positions says where each neighbor stands.
abbrev Indexed : List Neighbor → Dict Bytes ℕ → Type 0
Indexed results index = (k : Bytes) → lookup k index ≡ position k results

module _ (key_fn : Edge → Bytes) (g : GraphData) (rest : List GraphData) (results : List Neighbor)
    (idx : Dict Bytes ℕ) where
  step-new :
      (n : Node)
      → convert_graph_data g ≡ some (as_node n)
      → lookup n.key idx ≡ none
      → process_neighbors key_fn (g ∷ rest) results idx
        ≡ process_neighbors key_fn rest
            (results ++ (record { node = n; edges = [] } ∷ []))
            (insert n.key (length results) idx)
  unfolding process_neighbors
  step-new n h new = rw (h, process_neighbors) (rw new refl)

  step-old :
      (n : Node) (p : ℕ)
      → convert_graph_data g ≡ some (as_node n)
      → lookup n.key idx ≡ some p
      → process_neighbors key_fn (g ∷ rest) results idx ≡ process_neighbors key_fn rest results idx
  unfolding process_neighbors
  step-old n p h old = rw (h, process_neighbors) (rw old refl)

  step-edge :
      (e : Edge) (p : ℕ) (results' : List Neighbor)
      → convert_graph_data g ≡ some (as_edge e)
      → lookup (key_fn e) idx ≡ some p
      → append_edge p e results ≡ ok results'
      → process_neighbors key_fn (g ∷ rest) results idx ≡ process_neighbors key_fn rest results' idx
  unfolding process_neighbors
  step-edge e p results' h found a = rw (h, process_neighbors) (rw (found, a) refl)

lookup-insert_self : (k : Bytes) (v : ℕ) (d : Dict Bytes ℕ) → lookup k (insert k v d) ≡ some v
lookup-insert_self k v d = lookup-insert k k v d ∙ ground arith

module _ (n : Node) (e : Edge) (results : List Neighbor) (idx : Dict Bytes ℕ)
    (i : Indexed results idx) where
  Indexed-new :
      position n.key results ≡ none
      → Indexed (attach (n, e) results) (insert n.key (length results) idx)
  Indexed-new new k =
      lookup-insert k n.key (length results) idx
      ∙ ground (arith, position-attach k n e results, i k, new)

  Indexed-old : (p : ℕ) → position n.key results ≡ some p → Indexed (attach (n, e) results) idx
  Indexed-old p old k = i k ∙ ground (arith, position-attach k n e results, old)

process_neighbors-group :
    (key_fn : Edge → Bytes) (rows : List (GraphData × GraphData)) (pairs : List (Node × Edge))
    (results : List Neighbor) (idx : Dict Bytes ℕ)
    → ReadAs key_fn rows pairs
    → Indexed results idx
    → process_neighbors key_fn (rows_of rows) results idx ≡ ok (group pairs results)
unfolding process_neighbors group
process_neighbors-group key_fn [] [] results idx r i = refl
process_neighbors-group key_fn [] (_ ∷ _) results idx r i = absurd r
process_neighbors-group key_fn (_ ∷ _) [] results idx r i = absurd r
process_neighbors-group key_fn ((g1, g2) ∷ rows) ((n, e) ∷ pairs) results idx ((rn, re, behind), r)
      i =
    elim (Option-cases (position n.key results)) [
      | inl new ↦
          step-new key_fn g1 (g2 ∷ rows_of rows) results idx n rn (i n.key ∙ new)
          ∙ step-edge key_fn g2 (rows_of rows) _ _ e (length results) _ re
              (ap (λ k. lookup k (insert n.key (length results) idx)) behind
                ∙ lookup-insert_self n.key (length results) idx)
              (append_edge-new n e results new)
          ∙ process_neighbors-group key_fn rows pairs (attach (n, e) results) _ r
              (Indexed-new n e results idx i new)
      | inr (p, old) ↦
          step-old key_fn g1 (g2 ∷ rows_of rows) results idx n p rn (i n.key ∙ old)
          ∙ step-edge key_fn g2 (rows_of rows) results idx e p _ re
              (ap (λ k. lookup k idx) behind ∙ i n.key ∙ old) (append_edge-old n e p results old)
          ∙ process_neighbors-group key_fn rows pairs (attach (n, e) results) idx r
              (Indexed-old n e results idx i p old)
    ]

-- Where each pair of rows reads as a node and an edge that belongs to it, `processNeighbors`, which
-- keeps a map from keys to positions in a slice, never panics, and answers as the reference does
-- that looks for each node in the list of neighbors: one neighbor for each key, with the edges of
-- that key, in order.
pub process_neighbors_lem :
    (key_fn : Edge → Bytes) (rows : List (GraphData × GraphData)) (pairs : List (Node × Edge))
    → ReadAs key_fn rows pairs
    → process_neighbors key_fn (rows_of rows) [] [] ≡ ok (group pairs [])
unfolding position
process_neighbors_lem key_fn rows pairs r = process_neighbors-group key_fn rows pairs [] [] r start
  where
    start : Indexed [] []
    start k = lookup-nil k
